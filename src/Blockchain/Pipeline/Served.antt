-- ===== src/Blockchain/Pipeline/Served.antt =====
-- From the loop of a worker of src/blockchain/worker_pool.rs over the tables to the answer of
-- src/api/route.rs: what is sent to the worker is served.
use mathlib.Core.List.{Mem}
use mathlib.Core.List.Perm
use chain_data_service.Base.{
  ℕ, String, Bool, true, Option, List, [], ◌∷◌, map, ◌≡◌, refl, sym, ap, subst, ◌∙◌, ok, ℤ, pos,
  ◌≤ℤ◌, ltb_ℤ, All, All-map, flatten,
}
use chain_data_service.Models.{Transaction}
use chain_data_service.Validation.{
  validate_solana_address, validate_timestamp, validate_offset, validate_limit,
}
use chain_data_service.Cache.Keys.{CacheKey}
use chain_data_service.Cache.Moka.{Moka}
use chain_data_service.Cache.Transaction.{Page}
use chain_data_service.Cache.Address.{AppCache}
use chain_data_service.Db.Tables.{Db, select_rows}
use chain_data_service.Db.Exec.{World, IsCalm}
use chain_data_service.Db.Transaction.{RowOrder, to_row, of_row, count_rows}
use chain_data_service.Db.Query.{select_page_complete, select_page_sound}
use chain_data_service.Db.Coherence.{IsCoherent, answer}
use chain_data_service.Blockchain.Services.{Services}
use chain_data_service.Blockchain.Services.Laws.{IsYielded}
use chain_data_service.Blockchain.Processor.{SetOrder, run}
use chain_data_service.Blockchain.Processor.Registers.{IsTracked, Names, IsGood}
use chain_data_service.Blockchain.Processor.Delivers.{Involves, IsStored, run-Delivered}
use chain_data_service.Blockchain.Processor.Authentic.{IsAuthentic, run-AllAuthentic}
use chain_data_service.Db.Observed.{IsWithin, matches-IsWithin, IsWithin-matches}
use chain_data_service.Blockchain.Pipeline.{
  IsKnown, IsYielded-IsKnown, Delivered-IsDelivered, All-fetched, All-flatten, flatten-All,
}
use chain_data_service.Blockchain.Pipeline.Selected.{on_page}
use chain_data_service.Api.Response.{with_total_count}
use chain_data_service.Api.Route.{TransactionsQuery, get_transactions}
use chain_data_service.Api.Served.{get_transactions-served}

All-of_map :
    {A B : Type 0} (f : A → B) (P : B → Type 0) (xs : List A)
    → All (λ x. P (f x)) xs
    → All P (map f xs)
All-of_map f P [] h = tt
All-of_map f P (x ∷ xs) (p, h) = (p, All-of_map f P xs h)

module _ {F : Type 0} (order : RowOrder F) (m : Moka CacheKey (Page F)) (n : Moka String Bool)
    (to_json : List (Transaction F) → Option String) (decode : String → Option (List ℕ)) where
  -- A page from the start that is long enough shows every selected transaction.
  page-served :
      (params : TransactionsQuery) (received start_time end_time : ℤ) (limit : ℕ)
      (u : World F (AppCache m n)) (ts : List (Transaction F))
      → IsCalm u
      → IsTracked u.db.tracked params.address
      → validate_solana_address decode params.address ≡ ok tt
      → validate_timestamp params.start_time ≡ ok start_time
      → validate_timestamp params.end_time ≡ ok end_time
      → validate_offset params.offset ≡ ok (pos 0)
      → validate_limit params.limit ≡ ok (pos limit)
      → ltb_ℤ start_time end_time ≡ true
      → IsCoherent order m n u.db u.cache
      → count_rows params.address start_time end_time u.db ≤ℤ pos limit
      → All
          (λ t.
            IsWithin params.address start_time end_time (to_row t)
            → Mem t (map of_row (select_rows params.address start_time end_time u.db)))
          ts
      → (page : List (Transaction F)) × ((get_transactions order m n to_json decode received params
            u).0
          ≡ ok (with_total_count to_json page (count_rows params.address start_time end_time u.db)))
        × All (λ t. IsWithin params.address start_time end_time (to_row t) → Mem t page) ts
        × All (λ t. IsWithin params.address start_time end_time (to_row t)) page
  unfolding of_row to_row
  page-served params received start_time end_time limit u ts calm tracks valid s e o l lt coherent
        enough selected =
      let rows = select_page_complete order params.address start_time end_time limit u.db enough in
      (
        (answer order m n u.db params.address start_time end_time (pos 0) (pos limit)).0,
        get_transactions-served order m n to_json decode received params u start_time end_time
              (pos 0) (pos limit) calm coherent valid s e o l lt
            ∙ rw tracks refl,
        All-map _ _ ts (λ t f h. (Perm.mem_iff (Perm.map of_row rows)).1 (f h)) selected,
        All-of_map of_row _ _ (
            All-map _ _ _ (λ r e. matches-IsWithin params.address start_time end_time r e)
              (select_page_sound order params.address start_time end_time 0 limit u.db).0),
      )

module _ {F : Type 0} (services : Services F)
    (stable : (n : ℕ) (signature : String)
      → services.get_transaction n signature ≡ services.get_transaction 0 signature)
    (order : RowOrder F) (m : Moka CacheKey (Page F)) (n : Moka String Bool)
    (to_json : List (Transaction F) → Option String) (decode : String → Option (List ℕ))
    (clock : ℕ → ℤ) (set : SetOrder) where
  -- From the node to the answer: the node answers a request in the same way whenever it is asked and
  -- names only valid addresses, and no statement fails. At the start the address is tracked, and every
  -- stored row is that of a transaction which the node yields. A worker takes batches of
  -- transactions that the node yields, however they came to it, to the end of its loop. Then a request
  -- for the address that is valid, from the start of the rows, with a limit that is not below the
  -- number of matches and with no stale page in the cache, is answered with a page. Every transaction
  -- of the batches that has the address as its source or destination, at a time from the start of
  -- the range on and before its end, is on the page, and every one on the page is such a transaction.
  pub run-served :
      (asked : ℕ) (batches : List (List (Transaction F))) (w : World F (AppCache m n))
      (params : TransactionsQuery) (received start_time end_time : ℤ) (limit : ℕ)
      → IsCalm w
      → All (IsYielded services) (flatten batches)
      → ((t : Transaction F) → IsYielded services t → Names (IsGood decode) t)
      → All (IsAuthentic services) w.db.transactions
      → IsTracked w.db.tracked params.address
      → validate_solana_address decode params.address ≡ ok tt
      → validate_timestamp params.start_time ≡ ok start_time
      → validate_timestamp params.end_time ≡ ok end_time
      → validate_offset params.offset ≡ ok (pos 0)
      → validate_limit params.limit ≡ ok (pos limit)
      → ltb_ℤ start_time end_time ≡ true
      → let u = (run decode clock services set asked batches w).1 in
        IsCoherent order m n u.db u.cache
        → count_rows params.address start_time end_time u.db ≤ℤ pos limit
        → (page : List (Transaction F)) × ((get_transactions order m n to_json decode received
              params u).0
            ≡ ok (
                with_total_count to_json page (count_rows params.address start_time end_time u.db)))
          × All
              (λ t. IsWithin params.address start_time end_time (to_row t) → Mem t page)
              (flatten batches)
          × All (λ t. IsWithin params.address start_time end_time (to_row t)) page
  unfolding select_rows
  run-served asked batches w params received start_time end_time limit calm yielded good authentic
        tracks valid s e o l lt coherent enough =
      let u = (run decode clock services set asked batches w).1 in
      let (db', k, ran, (tracked, kept), delivered) =
        run-Delivered services decode clock set asked batches w calm
          (All-fetched services stable decode asked batches good) in
      let same_db : u.db ≡ db' = ap (λ r. r.1.db) ran in
      let known =
        flatten-All (IsKnown services stable) batches
          (All-map _ _ (flatten batches) (IsYielded-IsKnown services stable) yielded) in
      let stored = All-flatten _ batches (
        Delivered-IsDelivered services stable decode w.db.tracked db'.transactions asked batches
          known delivered) in
      let rows = run-AllAuthentic services decode clock set asked batches w authentic in
      let selected =
        on_page services stable params.address start_time end_time w.db.tracked u.db.transactions
          tracks rows (flatten batches) yielded
          (subst
            (λ (db : Db F).
              All (λ t. Involves w.db.tracked t → IsStored db.transactions t) (flatten batches))
            (sym same_db) stored) in
      page-served order m n to_json decode params received start_time end_time limit u
        (flatten batches) (λ i. ap (λ r. r.1.fault i) ran ∙ calm i)
        (subst (λ (db : Db F). IsTracked db.tracked params.address) (sym same_db)
          (tracked params.address tracks))
        valid s e o l lt coherent enough
        (All-map _ _ (flatten batches)
          (λ t f h. f (IsWithin-matches params.address start_time end_time (to_row t) h)) selected)
