-- ===== src/Blockchain/Processor/Delivers.antt =====
-- What the loop of a worker in src/blockchain/worker_pool.rs has stored when it ends.
use mathlib.Core.List.{filter_map}
use chain_data_service.Base.{
  All-map, All-filter_by-of, ℕ, suc, ◌+◌, length, String, Bool, true, Option, some, List, [], ◌∷◌,
  ◌++◌, map, ◌≡◌, refl, ap, ◌∙◌, ◌⊎◌, inl, inr, ok, ℤ, arith, All, filter_by, mem, eq_iff,
  Bool-cases, Option-cases, if◌then◌else◌,
}
use chain_data_service.Models.{Transaction}
use chain_data_service.Db.Tables.{
  Db, AddressRow, TransactionRow, count_address, has_signature, is_text,
}
use chain_data_service.Db.Exec.{Exec, World, IsCalm, bind-eq, pure, exec}
use chain_data_service.Db.Address.{get_all_tracked_addresses}
use chain_data_service.Db.Transaction.{to_row}
use chain_data_service.Db.Atomic.{stored}
use chain_data_service.Db.Service.Store.{has_signature-snoc}
use chain_data_service.Blockchain.Services.{Services, fetch_all}
use chain_data_service.Blockchain.Processor.{
  SetOrder, attempt, collect, is_transaction_relevant, process_tracked, process_batch, run,
}
use chain_data_service.Blockchain.Processor.Sets.{mem-collect_all}
use chain_data_service.Blockchain.Processor.Registers.{Names, IsTracked, IsGood}
use chain_data_service.Blockchain.Processor.Complete.{process_transaction_batch-keeps}

addresses_of : List AddressRow → List String
addresses_of rows = filter_map (λ (r : AddressRow). r.address) rows

mem-addresses_of :
    (a : String) (rows : List AddressRow) → IsTracked rows a → mem a (addresses_of rows) ≡ true
unfolding addresses_of filter_map mem count_address is_text
mem-addresses_of a [] h = absurd (ground arith)
mem-addresses_of a (r ∷ rows) h = elim (Option-cases r.address) [
  | inl e ↦ ground (arith, e, mem-addresses_of a rows)
  | inr (b, e) ↦ ground (arith, e, mem-addresses_of a rows)
]

All-of-filter_by :
    {A : Type 0} (P : A → Type 0) (p : A → Bool) (xs : List A)
    → All P (filter_by p xs)
    → All (λ x. p x ≡ true → P x) xs
unfolding filter_by
All-of-filter_by P p [] = λ h. tt
All-of-filter_by P p (x ∷ xs) = elim (Bool-cases (p x)) [
  | inl e ↦ rw e (λ h. ((λ k. h.0), All-of-filter_by P p xs h.1))
  | inr e ↦ rw e (λ h. ((λ k. absurd (ground arith)), All-of-filter_by P p xs h))
]

module _ {F : Type 0} where
  -- A transaction that names a tracked address.
  abbrev pub Involves : List AddressRow → Transaction F → Type 0
  Involves rows t =
      IsTracked rows t.source_address
      ⊎ ((d : String) × (t.destination_address ≡ some d) × IsTracked rows d)

  Involves-relevant :
      (rows : List AddressRow) (t : Transaction F)
      → Involves rows t
      → is_transaction_relevant (collect [] (addresses_of rows)) t ≡ true
  unfolding is_transaction_relevant
  Involves-relevant rows t (inl h) = ground (
    arith,
    mem-collect_all t.source_address [] (addresses_of rows)
        (mem-addresses_of t.source_address rows h),
  )
  Involves-relevant rows t (inr (d, e, h)) =
      ground (arith, e, mem-collect_all d [] (addresses_of rows) (mem-addresses_of d rows h))

  -- A row of the signature is in the table.
  abbrev pub IsStored : List (TransactionRow F) → Transaction F → Type 0
  IsStored rows t = has_signature t.signature rows ≡ true

  stored-kept :
      (x : String) (ts : List (Transaction F)) (rows : List (TransactionRow F))
      → has_signature x rows ≡ true
      → has_signature x (stored ts rows) ≡ true
  unfolding stored
  stored-kept x [] rows h = h
  stored-kept x (t ∷ ts) rows h = elim (Bool-cases (has_signature t.signature rows)) [
    | inl e ↦ rw e (stored-kept x ts rows h)
    | inr e ↦ rw e (
        stored-kept x ts (rows ++ to_row t ∷ [])
          (ground (arith, has_signature-snoc x rows (to_row t))))
  ]

  IsStored-snoc :
      (t : Transaction F) (rows : List (TransactionRow F)) → IsStored (rows ++ to_row t ∷ []) t
  unfolding to_row
  IsStored-snoc t rows =
      ground (arith, has_signature-snoc t.signature rows (to_row t), eq_iff t.signature t.signature)

  IsStored-next :
      (t : Transaction F) (rows : List (TransactionRow F))
      → IsStored (if has_signature t.signature rows then rows else rows ++ to_row t ∷ []) t
  IsStored-next t rows = elim (Bool-cases (has_signature t.signature rows)) [
    | inl e ↦ rw e e
    | inr e ↦ rw e (IsStored-snoc t rows)
  ]

  stored-All :
      (ts : List (Transaction F)) (rows : List (TransactionRow F))
      → All (IsStored (stored ts rows)) ts
  unfolding stored
  stored-All [] rows = tt
  stored-All (t ∷ ts) rows = (
    stored-kept t.signature ts _ (IsStored-next t rows),
    stored-All ts (if has_signature t.signature rows then rows else rows ++ to_row t ∷ []),
  )

module _ {F : Type 0} where
  -- It holds of each batch, at the number of its first request.
  unfoldable pub AllFrom :
      (ℕ → List (Transaction F) → Type 0) → ℕ → List (List (Transaction F)) → Type 0
  AllFrom P asked [] = Unit
  AllFrom P asked (batch ∷ rest) = P asked batch × AllFrom P (asked + length batch) rest

  AllFrom-map :
      (P Q : ℕ → List (Transaction F) → Type 0)
      → ((asked : ℕ) (batch : List (Transaction F)) → P asked batch → Q asked batch)
      → (asked : ℕ) (batches : List (List (Transaction F))) → AllFrom P asked batches
      → AllFrom Q asked batches
  unfolding AllFrom
  AllFrom-map P Q f asked [] h = tt
  AllFrom-map P Q f asked (batch ∷ rest) (p, h) =
      (f asked batch p, AllFrom-map P Q f (asked + length batch) rest h)

module _ {F : Type 0} (services : Services F) where
  -- What the node yields for a batch, after `asked` requests.
  abbrev pub fetched : ℕ → List (Transaction F) → List (Transaction F)
  fetched asked batch = fetch_all services asked (map (λ (t : Transaction F). t.signature) batch)

  -- What is tracked and stored stays so.
  abbrev pub Keeps : Db F → Db F → Type 0
  Keeps db db' =
      ((a : String) → IsTracked db.tracked a → IsTracked db'.tracked a)
      × ((x : String)
          → has_signature x db.transactions ≡ true
          → has_signature x db'.transactions ≡ true)

  -- Each transaction of a batch that names a tracked address is stored.
  abbrev pub Delivered :
      List AddressRow → List (TransactionRow F) → ℕ → List (Transaction F) → Type 0
  Delivered tracked rows asked batch =
      All (λ t. Involves tracked t → IsStored rows t) (fetched asked batch)

  Delivered-Keeps :
      (db db' : Db F) (tracked : List AddressRow)
      → ((a : String) → IsTracked tracked a → IsTracked db.tracked a)
      → (asked : ℕ) (batch : List (Transaction F))
      → Delivered db.tracked db'.transactions asked batch
      → Delivered tracked db'.transactions asked batch
  Delivered-Keeps db db' tracked more asked batch h =
      All-map _ _ (fetched asked batch) (λ t f v. f (widen t v)) h
    where
      widen : (t : Transaction F) → Involves tracked t → Involves db.tracked t
      widen t (inl p) = inl (more t.source_address p)
      widen t (inr (d, e, p)) = inr (d, e, more d p)

  module _ {S : Type 0} (decode : String → Option (List ℕ)) (clock : ℕ → ℤ) (set : SetOrder) where
    read_addresses :
        (w : World F S)
        → IsCalm w
        → attempt get_all_tracked_addresses w
          ≡ (ok (ok (addresses_of w.db.tracked)), record w { issued = suc w.issued })
    unfolding attempt get_all_tracked_addresses exec addresses_of
    read_addresses w calm = rw (calm w.issued) refl

    attempt-eq :
        {A : Type 0} (m : Exec F S A) (w w' : World F S) {a : A}
        → m w ≡ (ok a, w')
        → attempt m w ≡ (ok (ok a), w')
    unfolding attempt
    attempt-eq m w w' e = ap (λ r. (ok r.0, r.1)) e

    process_batch-Delivered :
        (asked : ℕ) (batch : List (Transaction F)) (w : World F S)
        → IsCalm w
        → All (Names (IsGood decode)) (fetched asked batch)
        → (db' : Db F) × (k : ℕ) × (process_batch decode clock services set asked batch w
            ≡ (ok tt, record w { db = db'; issued = k }))
          × Keeps w.db db'
          × Delivered w.db.tracked db'.transactions asked batch
    unfolding process_batch process_tracked pure fetch_all
    process_batch-Delivered asked [] w calm good =
        (w.db, w.issued, refl, ((λ a h. h), (λ x h. h)), tt)
    process_batch-Delivered asked (t ∷ ts) w calm good =
        let begun : World F S = record w { issued = suc w.issued } in
        let tracked = collect [] (addresses_of w.db.tracked) in
        let p = is_transaction_relevant tracked in
        let (rows, k, e, all, kept) =
          process_transaction_batch-keeps decode clock set services asked
            (map (λ (t : Transaction F). t.signature) (t ∷ ts)) tracked begun calm
            (All-filter_by-of (Names (IsGood decode)) p (fetched asked (t ∷ ts)) good) in
        let relevant = filter_by p (fetched asked (t ∷ ts)) in
        (
          record { tracked = rows; transactions = stored relevant w.db.transactions },
          k,
          bind-eq _ _ w begun (read_addresses w calm) ∙ bind-eq _ _ begun _ e,
          (kept, λ x. stored-kept x relevant w.db.transactions),
          All-map _ _ (fetched asked (t ∷ ts)) (λ u f v. f (Involves-relevant w.db.tracked u v))
              (All-of-filter_by (IsStored (stored relevant w.db.transactions)) p
                (fetched asked (t ∷ ts)) (stored-All relevant w.db.transactions)),
        )

    -- When no statement fails, and every address named by what the node yields is valid, a
    -- worker that takes some batches ends its loop with each of them stored: every transaction that
    -- the node yields for a signature of a batch and that names an address tracked at the start is
    -- in the table in the end, and what was tracked or stored at the start still is.
    pub run-Delivered :
        (asked : ℕ) (batches : List (List (Transaction F))) (w : World F S)
        → IsCalm w
        → AllFrom (λ n batch. All (Names (IsGood decode)) (fetched n batch)) asked batches
        → (db' : Db F) × (k : ℕ) × (run decode clock services set asked batches w
            ≡ (ok tt, record w { db = db'; issued = k }))
          × Keeps w.db db'
          × AllFrom (Delivered w.db.tracked db'.transactions) asked batches
    unfolding run pure AllFrom
    run-Delivered asked [] w calm good = (w.db, w.issued, refl, ((λ a h. h), (λ x h. h)), tt)
    run-Delivered asked (batch ∷ rest) w calm (p, good) =
        let (db1, j, first, (tracked, kept), delivered) =
          process_batch-Delivered asked batch w calm p in
        let (db2, k, later, (tracked', kept'), all) =
          run-Delivered (asked + length batch) rest (record w { db = db1; issued = j }) calm good in
        (
          db2,
          k,
          bind-eq _ _ w _
                (attempt-eq (process_batch decode clock services set asked batch) w _ first)
              ∙ later,
          ((λ a h. tracked' a (tracked a h)), (λ x h. kept' x (kept x h))),
          (
            All-map _ _ (fetched asked batch) (λ t f v. kept' t.signature (f v)) delivered,
            AllFrom-map _ _ (Delivered-Keeps db1 db2 w.db.tracked tracked) (asked + length batch)
                rest all,
          ),
        )
