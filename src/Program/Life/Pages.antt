-- ===== src/Program/Life/Pages.antt =====
-- The pages that the server sends while the workers store batches.
use chain_data_service.Base.{
  String, List, [], ◌∷◌, ◌++◌, ◌≡◌, refl, ap, ◌∙◌, ℤ, arith, ℕ, inl, inr, subst, zero, suc, some,
  All, All-append, All-map, Option-cases,
}
use chain_data_service.Cache.Transaction
use chain_data_service.Cache.Transaction.{Page, get_ttl_for_time_range}
use chain_data_service.Db.Tables.{Db}
use chain_data_service.Db.Exec.{exec}
use chain_data_service.Db.Address.{is_address_tracked}
use chain_data_service.Db.Transaction as Stored
use chain_data_service.Db.Coherence.{answer, IsCoherent, get_transactions-after}
use chain_data_service.Db.Past.{IsAnswered, IsPast, IsCoherent-IsPast, insert-IsPast}
use chain_data_service.Blockchain.Services.{Services}
use chain_data_service.Blockchain.Processor.{SetOrder}
use chain_data_service.Blockchain.Processor.Spares.{run-Spares}
use chain_data_service.Api.Handler.{Keeps, keeps, query-Keeps}
use chain_data_service.Api.Route.{
  TrackQuery, TransactionsQuery, check_address, track_address, get_transactions,
}
use chain_data_service.Api.Router.{Outside, State, Served, Axum}
use chain_data_service.Api.Router.Holds.{serve-Keeps}
use chain_data_service.Api.Router.Keeps.{track_address-IsAside, answer-transactions}
use chain_data_service.Program.Life.Flights.{
  Asked, Stage, reading, counting, selecting, storing, answered, failed, Flight, Event, whole,
  begins, goes_on, after_read, after_count, after_rows, Serving, advance, advance_at, step, steps,
}
use chain_data_service.Cache.Keys.{transaction_query}
use chain_data_service.Db.Transaction.{query_count, query_rows, write_cache}
use chain_data_service.Program.Life.{Happening, request, batch, happen}

module _ {F : Type 0} (o : Outside F) where
  abbrev AllPast : (Db F → Type 0) → State o → Type 0
  AllPast P u = IsPast o.order o.pages o.flags P u.cache

  module _ (P : Db F → Type 0) (w : State o) (moment : P w.db) where
    -- The stored transactions are those of `w`, and the pages in the cache are from the past.
    abbrev IsLate : State o → Type 0
    IsLate u = (u.db.transactions ≡ w.db.transactions) × AllPast P u

    track_address-IsLate :
        (now : ℤ) (params : TrackQuery)
        → Keeps IsLate (track_address o.decode o.unicode_lower now params)
    track_address-IsLate now params = record {
      run = λ u (same, past).
          let (stored, cached) = track_address-IsAside o.decode o.unicode_lower now u params in
          (stored ∙ same, rw cached past);
    }

    is_address_tracked-IsLate :
        (a : String) (u : State o) → IsLate u → IsLate (is_address_tracked a u).1
    unfolding is_address_tracked exec
    is_address_tracked-IsLate a u (same, past) =
        let cached : (is_address_tracked a u).1.cache ≡ u.cache = ground arith in
        (ground (arith, same), rw cached past)

    page-IsLate :
        (now : ℤ) (a : String) (start_time end_time offset limit : ℤ) (u : State o)
        → IsLate u
        → IsLate
            (Stored.get_transactions o.order o.pages o.flags now a start_time end_time offset limit
              u).1
    page-IsLate now a start_time end_time offset limit u (same, past) =
        let (same_db, cases) =
          get_transactions-after o.order o.pages o.flags now a start_time end_time offset limit u in
        let right = answer-transactions o w.db u.db a start_time end_time offset limit same in
        let now_answered : IsAnswered o.order o.pages o.flags P
            (answer o.order o.pages o.flags u.db a start_time end_time offset limit) a start_time
            end_time offset limit =
          ((w.db, moment, ap (λ x. x.0) right), (w.db, moment, ap (λ x. x.1) right)) in
        (
          ap (λ (db : Db F). db.transactions) same_db ∙ same,
          elim cases [
            | inl kept ↦ rw kept past
            | inr new ↦ rw new (
                insert-IsPast o.order o.pages o.flags P a start_time end_time offset limit _
                  (some (get_ttl_for_time_range now start_time end_time)) u.cache now_answered past)
          ],
        )

    get_transactions-IsLate :
        (now : ℤ) (params : TransactionsQuery)
        → Keeps IsLate (get_transactions o.order o.pages o.flags o.to_json o.decode now params)
    unfolding get_transactions check_address
    get_transactions-IsLate now params =
        search (keeps, query-Keeps, is_address_tracked-IsLate, page-IsLate) depth 20

  module _ (axum : Axum (Served o)) (services : Services F) (clock : ℕ → ℤ) (set : SetOrder) where
    happen-AllPast :
        (P : Db F → Type 0) (h : Happening F) (w : State o)
        → P w.db
        → AllPast P w
        → AllPast P (happen o axum services clock set h w)
    unfolding happen
    happen-AllPast P (request r) w moment past =
        (serve-Keeps o (IsLate P w moment) (track_address-IsLate P w moment)
          (get_transactions-IsLate P w moment) axum r w (refl, past)).1
    happen-AllPast P (batch asked ts) w moment past =
        rw ((run-Spares o.decode clock services set asked (ts ∷ [])).run w) past

  -- What a call has so far is the answer of databases that satisfy `P`.
  IsRight : (Db F → Type 0) → Asked → Stage F → Type 0
  IsRight P q reading = Unit
  IsRight P q counting = Unit
  IsRight P q (selecting total_count) =
      (db : Db F) × P db
      × (total_count
          ≡ (answer o.order o.pages o.flags db q.address q.start_time q.end_time q.offset
              q.limit).1)
  IsRight P q (storing page) =
      IsAnswered o.order o.pages o.flags P page q.address q.start_time q.end_time q.offset q.limit
  IsRight P q (answered page) =
      IsAnswered o.order o.pages o.flags P page q.address q.start_time q.end_time q.offset q.limit
  IsRight P q (failed e) = Unit

  AllRight : (Db F → Type 0) → List (Flight F) → Type 0
  AllRight P fs = All (λ f. IsRight P f.asked f.stage) fs

  module _ (P : Db F → Type 0) where
    advance-IsRight :
        (q : Asked) (stage : Stage F) (w : State o)
        → P w.db
        → AllPast P w
        → IsRight P q stage
        → let (next, u) = advance o q stage w in IsRight P q next × AllPast P u
    unfolding advance after_read after_count after_rows IsRight query_count query_rows write_cache
        exec
    advance-IsRight q reading w moment past h =
        elim (Option-cases (
          Transaction.get o.pages
            (transaction_query q.address q.start_time q.end_time q.offset q.limit)
            w.cache.transaction_cache)) [
              | inl e ↦ rw (e, after_read, IsRight) (tt, past)
              | inr (page, e) ↦
                  rw (e, after_read, IsRight)
                    (past q.address q.start_time q.end_time q.offset q.limit page e, past)
            ]
    advance-IsRight q counting w moment past h = elim (Option-cases (w.fault w.issued)) [
      | inl e ↦ rw e ((w.db, moment, refl), past)
      | inr (x, e) ↦ rw e (tt, past)
    ]
    advance-IsRight q (selecting total_count) w moment past h =
        elim (Option-cases (w.fault w.issued)) [
          | inl e ↦ rw e (((w.db, moment, refl), h), past)
          | inr (x, e) ↦ rw e (tt, past)
        ]
    advance-IsRight q (storing page) w moment past h = (
      h,
      insert-IsPast o.order o.pages o.flags P q.address q.start_time q.end_time q.offset q.limit
          page (some (get_ttl_for_time_range q.now q.start_time q.end_time)) w.cache h past,
    )
    advance-IsRight q (answered page) w moment past h = (h, past)
    advance-IsRight q (failed e) w moment past h = (h, past)

    advance_at-AllRight :
        (n : ℕ) (fs : List (Flight F)) (w : State o)
        → P w.db
        → AllPast P w
        → AllRight P fs
        → let (gs, u) = advance_at o n fs w in AllRight P gs × AllPast P u
    unfolding advance_at AllRight
    advance_at-AllRight n [] w moment past h = (tt, past)
    advance_at-AllRight zero (f ∷ fs) w moment past (p, h) =
        let (right, past') = advance-IsRight f.asked f.stage w moment past p in ((right, h), past')
    advance_at-AllRight (suc n) (f ∷ fs) w moment past (p, h) =
        let (rest, past') = advance_at-AllRight n fs w moment past h in ((p, rest), past')

  module _ (axum : Axum (Served o)) (services : Services F) (clock : ℕ → ℤ) (set : SetOrder) where
    step-AllRight :
        (P : Db F → Type 0) (e : Event F) (s : Serving o)
        → P s.world.db
        → AllPast P s.world
        → AllRight P s.flights
        → let t = step o axum services clock set e s in AllPast P t.world × AllRight P t.flights
    unfolding step AllRight IsRight
    step-AllRight P (whole h) s moment past right =
        (happen-AllPast axum services clock set P h s.world moment past, right)
    step-AllRight P (begins q) s moment past right = (past, All-append _ s.flights _ right (tt, tt))
    step-AllRight P (goes_on n) s moment past right =
        let (fs, past') = advance_at-AllRight P n s.flights s.world moment past right in (past', fs)

    steps-AllRight :
        (P : Db F → Type 0) (es : List (Event F)) (s : Serving o)
        → ((done ahead : List (Event F))
            → es ≡ done ++ ahead
            → P (steps o axum services clock set done s).world.db)
        → AllPast P s.world
        → AllRight P s.flights
        → AllRight P (steps o axum services clock set es s).flights
    unfolding steps
    steps-AllRight P [] s moments past right = right
    steps-AllRight P (e ∷ es) s moments past right =
        let (past', right') = step-AllRight P e s (moments [] (e ∷ es) refl) past right in
        steps-AllRight P es (step o axum services clock set e s)
          (λ done ahead same. moments (e ∷ done) ahead (ap (λ rest. e ∷ rest) same)) past' right'

    -- The database at a moment of the run.
    abbrev pub IsMoment : List (Event F) → Serving o → Db F → Type 0
    IsMoment es s db =
        (done : List (Event F)) × (ahead : List (Event F)) × (es ≡ done ++ ahead)
        × (db ≡ (steps o axum services clock set done s).world.db)

    -- While requests are served, batches stored and calls of `get_transactions` made in parts, in any
    -- order, whatever the requests and the batches hold, whatever the node answers and whatever
    -- statements fail: if no page in the cache is stale and no call has begun at the start, then the
    -- transactions that a call returns are what the database had to answer at one moment between
    -- the start and now, and the total count that it returns is what the database had to answer at
    -- one such moment, maybe another.
    pub steps-page :
        (es : List (Event F)) (w : State o)
        → IsCoherent o.order o.pages o.flags w.db w.cache
        → let s : Serving o = record { world = w; flights = [] } in
          All
            (λ f.
              (page : Page F)
              → f.stage ≡ answered page
              → IsAnswered o.order o.pages o.flags
                  (IsMoment es s)
                  page
                  f.asked.address
                  f.asked.start_time
                  f.asked.end_time
                  f.asked.offset
                  f.asked.limit)
            (steps o axum services clock set es s).flights
    unfolding steps AllRight IsRight
    steps-page es w c =
        let s : Serving o = record { world = w; flights = [] } in
        let P = IsMoment es s in
        All-map _ _ (steps o axum services clock set es s).flights
          (λ f right page e. subst (IsRight P f.asked) e right)
          (steps-AllRight P es s (λ done ahead same. (done, ahead, same, refl))
            (IsCoherent-IsPast o.order o.pages o.flags P w.db w.cache ([], es, refl, refl) c) tt)
