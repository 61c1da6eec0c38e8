-- ===== src/Db/Service/Store.antt =====
-- `add_transactions` of src/db/transaction.rs does what `accept_all` says.
use mathlib.Core.Path.{fun_ext}
use chain_data_service.Base.{
  ℕ, suc, String, Bool, true, false, Option, none, some, List, [], ◌∷◌, ◌++◌, ◌≡◌, refl, ap, sym,
  ◌∙◌, ◌⊎◌, inl, inr, ok, err, arith, ◌&&◌, ◌||◌, ltb, if◌then◌else◌, str_eq, Bool-cases,
}
use chain_data_service.Models.{Transaction}
use chain_data_service.Db.Tables.{
  foreign_key, Db, AddressRow, TransactionRow, is_text, count_address, has_signature, has_reference,
  involves, destination_ok, references_ok, insert_transaction,
}
use chain_data_service.Db.Exec.{
  World, IsCalm, pure, restore, rolled_back, bind-eq, bind-eq-err, statement-eq, statement-eq-err,
}
use chain_data_service.Db.Transaction.{to_row, insert_all, insert_and_commit, add_transactions}
use chain_data_service.Db.Service.{Service, view, destination_tracked, accept, accept_all}

pub Service-ext :
    (s t : Service)
    → ((a : String) → s.tracked a ≡ t.tracked a)
    → ((x : String) → s.stored x ≡ t.stored x)
    → ((a : String) → s.named a ≡ t.named a)
    → s ≡ t
Service-ext s t p q r i = record {
  tracked = fun_ext p i;
  stored = fun_ext q i;
  named = fun_ext r i;
}

destination_ok-tracked :
    (rows : List AddressRow) (d : Option String)
    → destination_ok rows d ≡ destination_tracked (λ a. ltb 0 (count_address a rows)) d
unfolding destination_ok destination_tracked
destination_ok-tracked rows none = refl
destination_ok-tracked rows (some d) = refl

module _ {F : Type 0} where
  pub has_signature-snoc :
      (x : String) (rows : List (TransactionRow F)) (r : TransactionRow F)
      → has_signature x (rows ++ r ∷ []) ≡ (has_signature x rows || str_eq r.signature x)
  unfolding has_signature
  has_signature-snoc x [] r = ground arith
  has_signature-snoc x (y ∷ rows) r = ground (arith, has_signature-snoc x rows r)

  has_reference-snoc :
      (a : String) (rows : List (TransactionRow F)) (r : TransactionRow F)
      → has_reference a (rows ++ r ∷ []) ≡ (has_reference a rows || involves a r)
  unfolding has_reference
  has_reference-snoc a [] r = ground arith
  has_reference-snoc a (y ∷ rows) r = ground (arith, has_reference-snoc a rows r)

  -- The tables with a row more.
  abbrev with_row : Transaction F → Db F → Db F
  with_row t db = record db { transactions = db.transactions ++ to_row t ∷ [] }

  -- The view with a transaction more.
  abbrev with_transaction : Transaction F → Service → Service
  with_transaction t s = record s {
    stored = λ x. s.stored x || str_eq t.signature x;
    named = λ a. s.named a || (str_eq t.source_address a || is_text a t.destination_address);
  }

  view-with_row :
      (t : Transaction F) (db : Db F) → with_transaction t (view db) ≡ view (with_row t db)
  unfolding view to_row involves
  view-with_row t db =
      Service-ext _ _ (λ a. refl) (λ x. sym (has_signature-snoc x db.transactions (to_row t)))
        (λ a. sym (has_reference-snoc a db.transactions (to_row t)))

  references_ok-view :
      (t : Transaction F) (db : Db F)
      → references_ok db.tracked (to_row t) ≡ (
          (view db).tracked t.source_address
          && destination_tracked (view db).tracked t.destination_address)
  unfolding references_ok to_row view
  references_ok-view t db =
      ap (λ b. ltb 0 (count_address t.source_address db.tracked) && b)
        (destination_ok-tracked db.tracked t.destination_address)

  module _ (t : Transaction F) (db : Db F) where
    insert_old :
        has_signature t.signature db.transactions ≡ true
        → insert_transaction (to_row t) db ≡ (ok tt, db)
    unfolding insert_transaction to_row
    insert_old old = ground (arith, old)

    accept_old :
        has_signature t.signature db.transactions ≡ true → accept t (view db) ≡ some (view db)
    unfolding accept view
    accept_old old = rw old refl

    module _ (new : has_signature t.signature db.transactions ≡ false) where
      insert_new :
          references_ok db.tracked (to_row t) ≡ true
          → insert_transaction (to_row t) db ≡ (ok tt, with_row t db)
      unfolding insert_transaction to_row
      insert_new good = ground (arith, new, good)

      insert_bad :
          references_ok db.tracked (to_row t) ≡ false
          → insert_transaction (to_row t) db ≡ (err foreign_key, db)
      unfolding insert_transaction to_row
      insert_bad bad = ground (arith, new, bad)

      accept_new :
          (v : Bool)
          → references_ok db.tracked (to_row t) ≡ v
          → accept t (view db) ≡ (if v then some (view (with_row t db)) else none)
      unfolding accept view
      accept_new v e = rw new (
          rw (sym (references_ok-view t db) ∙ e)
            (ap (λ s. if v then some s else none) (view-with_row t db)))

  -- An insertion does what `accept` says.
  abbrev Inserts : Transaction F → Db F → Type 0
  Inserts t db =
      ((insert_transaction (to_row t) db ≡ (err foreign_key, db)) × (accept t (view db) ≡ none))
      ⊎ ((db' : Db F) × (insert_transaction (to_row t) db ≡ (ok tt, db'))
          × (accept t (view db) ≡ some (view db')))

  insert-Inserts : (t : Transaction F) (db : Db F) → Inserts t db
  insert-Inserts t db = elim (Bool-cases (has_signature t.signature db.transactions)) [
    | inl old ↦ inr (db, insert_old t db old, accept_old t db old)
    | inr new ↦ elim (Bool-cases (references_ok db.tracked (to_row t))) [
      | inl good ↦ inr (with_row t db, insert_new t db new good, accept_new t db new true good)
      | inr bad ↦ inl (insert_bad t db new bad, accept_new t db new false bad)
    ]
  ]

  module _ {S : Type 0} where
    -- A run of the loop does what `accept_all` says.
    abbrev Loads : List (Transaction F) → World F S → Type 0
    Loads ts w =
        (db' : Db F) × (k : ℕ) × (((insert_all ts w
              ≡ (err foreign_key, record w { db = db'; issued = k }))
            × (accept_all ts (view w.db) ≡ none))
          ⊎ ((insert_all ts w ≡ (ok tt, record w { db = db'; issued = k }))
              × (accept_all ts (view w.db) ≡ some (view db'))))

    insert_all-Loads : (ts : List (Transaction F)) (w : World F S) → IsCalm w → Loads ts w
    unfolding insert_all accept_all pure
    insert_all-Loads [] w calm = (w.db, w.issued, inr (refl, refl))
    insert_all-Loads (t ∷ ts) w calm = elim (insert-Inserts t w.db) [
      | inl (failed, refused) ↦ (
        w.db,
        suc w.issued,
        inl (
          bind-eq-err _ _ w _ (statement-eq-err _ w (calm w.issued) failed),
          rw (refused, accept_all) refl,
        ),
      )
      | inr (db', run, accepted) ↦
          let (last, k, cases) =
            insert_all-Loads ts (record w { db = db'; issued = suc w.issued }) calm in
          let first = bind-eq _ _ w _ (statement-eq _ w (calm w.issued) run) in
          (
            last,
            k,
            elim cases [
              | inl (failed, refused) ↦ inl (first ∙ failed, rw (accepted, accept_all) refused)
              | inr (loaded, accepted_all) ↦
                  inr (first ∙ loaded, rw (accepted, accept_all) accepted_all)
            ],
          )
    ]

    -- A batch is stored as `accept_all` says, or the tables are as they were.
    abbrev Stores : List (Transaction F) → World F S → Type 0
    Stores ts w =
        (db' : Db F) × (k : ℕ) × (((add_transactions ts w
              ≡ (err foreign_key, record w { db = w.db; issued = k }))
            × (accept_all ts (view w.db) ≡ none))
          ⊎ ((add_transactions ts w ≡ (ok tt, record w { db = db'; issued = k }))
              × (accept_all ts (view w.db) ≡ some (view db'))))

    pub add_transactions-Stores :
        (ts : List (Transaction F)) (w : World F S) → IsCalm w → Stores ts w
    unfolding add_transactions insert_and_commit rolled_back
    add_transactions-Stores ts w calm =
        let begun : World F S = record w { issued = suc w.issued } in
        let first =
          bind-eq _ (λ _. insert_and_commit ts) w begun (statement-eq _ w (calm w.issued) refl) in
        let (db', k, cases) = insert_all-Loads ts begun calm in
        elim cases [
          | inl (failed, refused) ↦
              (db', k, inl (first ∙ ap (restore w.db) (bind-eq-err _ _ begun _ failed), refused))
          | inr (loaded, accepted) ↦
              let loaded_all : World F S = record w { db = db'; issued = k } in
              let commit = statement-eq (λ db. (ok tt, db)) loaded_all (calm k) refl in
              (
                db',
                suc k,
                inr (
                  first ∙ ap (restore w.db) (bind-eq _ _ begun loaded_all loaded ∙ commit),
                  accepted,
                ),
              )
        ]
