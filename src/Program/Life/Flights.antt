-- ===== src/Program/Life/Flights.antt =====
-- Queries of `get_transactions` in src/db/transaction.rs that are made in parts: each takes its two
-- statements on a connection of its own, and what else the program does may come before, between and
-- after them. A query begins when its handler has checked the request.
use chain_data_service.Base.{
  ℕ, zero, suc, String, Option, none, some, List, [], ◌∷◌, ◌++◌, ℤ, Result, ok, err, map,
}
use chain_data_service.Cache.Keys.{transaction_query}
use chain_data_service.Cache.Transaction
use chain_data_service.Cache.Transaction.{Page, get_ttl_for_time_range}
use chain_data_service.Db.Tables.{SqlxError, TransactionRow}
use chain_data_service.Db.Transaction.{of_row, query_count, query_rows, write_cache}
use chain_data_service.Blockchain.Services.{Services}
use chain_data_service.Blockchain.Processor.{SetOrder}
use chain_data_service.Api.Router.{Outside, State, Served, Axum}
use chain_data_service.Program.Life.{Happening, happen}

-- The arguments of a call, and the clock.
pub record Asked : Type 0 where
  pub address : String
  pub start_time : ℤ
  pub end_time : ℤ
  pub offset : ℤ
  pub limit : ℤ
  pub now : ℤ

-- What the call does next: it reads the cache, counts, selects with the total count that it has, or
-- stores its page; or it has returned.
pub data Stage (F : Type 0) : Type 0 where
  reading : Stage F
  counting : Stage F
  selecting : ℤ → Stage F
  storing : Page F → Stage F
  answered : Page F → Stage F
  failed : SqlxError → Stage F

pub record Flight (F : Type 0) : Type 0 where
  pub asked : Asked
  pub stage : Stage F

pub data Event (F : Type 0) : Type 0 where
  -- A whole request, or a batch.
  whole : Happening F → Event F
  -- A call begins.
  begins : Asked → Event F
  -- The call of this number goes on.
  goes_on : ℕ → Event F

unfoldable pub after_read : {F : Type 0} → Option (Page F) → Stage F
after_read none = counting
after_read (some page) = answered page

unfoldable pub after_count : {F : Type 0} → Result ℤ SqlxError → Stage F
after_count (ok total_count) = selecting total_count
after_count (err e) = failed e

unfoldable pub after_rows : {F : Type 0} → ℤ → Result (List (TransactionRow F)) SqlxError → Stage F
after_rows total_count (ok rows) = storing (map of_row rows, total_count)
after_rows total_count (err e) = failed e

module _ {F : Type 0} (o : Outside F) where
  pub record Serving : Type 0 where
    pub world : State o
    pub flights : List (Flight F)

  unfoldable pub advance : Asked → Stage F → State o → Stage F × State o
  unfolding after_read after_count after_rows
  advance q reading w = (
    after_read (
        Transaction.get o.pages
          (transaction_query q.address q.start_time q.end_time q.offset q.limit)
          w.cache.transaction_cache),
    w,
  )
  advance q counting w =
      let (r, w') = query_count o.order o.pages o.flags q.now q.address q.start_time q.end_time w in
      (after_count r, w')
  advance q (selecting total_count) w =
      let (r, w') =
        query_rows o.order o.pages o.flags q.now q.address q.start_time q.end_time q.offset q.limit
          w in
      (after_rows total_count r, w')
  advance q (storing page) w =
      let ttl = get_ttl_for_time_range q.now q.start_time q.end_time in
      let key = transaction_query q.address q.start_time q.end_time q.offset q.limit in
      (answered page, (write_cache o.order o.pages o.flags q.now key page (some ttl) w).1)
  advance q (answered page) w = (answered page, w)
  advance q (failed e) w = (failed e, w)

  unfoldable pub advance_at : ℕ → List (Flight F) → State o → List (Flight F) × State o
  unfolding advance
  advance_at n [] w = ([], w)
  advance_at zero (f ∷ fs) w =
      let (stage, w') = advance f.asked f.stage w in (record f { stage = stage } ∷ fs, w')
  advance_at (suc n) (f ∷ fs) w = let (gs, w') = advance_at n fs w in (f ∷ gs, w')

  module _ (axum : Axum (Served o)) (services : Services F) (clock : ℕ → ℤ) (set : SetOrder) where
    unfoldable pub step : Event F → Serving → Serving
    unfolding happen advance_at
    step (whole h) s = record s { world = happen o axum services clock set h s.world }
    step (begins q) s = record s {
      flights = s.flights ++ record { asked = q; stage = reading } ∷ [];
    }
    step (goes_on n) s =
        let (flights, world) = advance_at n s.flights s.world in
        record { world = world; flights = flights }

    unfoldable pub steps : List (Event F) → Serving → Serving
    unfolding step
    steps [] s = s
    steps (e ∷ es) s = steps es (step e s)
