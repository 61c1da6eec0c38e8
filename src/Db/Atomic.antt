-- ===== src/Db/Atomic.antt =====
-- `add_transactions` of src/db/transaction.rs: it stores the whole batch or nothing.
use chain_data_service.Base.{
  ℕ, suc, true, ◌≡◌, refl, ap, ◌∙◌, List, [], ◌∷◌, ◌++◌, ok, err, arith, All, if◌then◌else◌,
}
use chain_data_service.Models.{Transaction}
use chain_data_service.Db.Tables.{
  SqlxError, Db, TransactionRow, has_signature, references_ok, insert_transaction,
}
use chain_data_service.Db.Exec.{
  World, IsCalm, ◌>>=◌, pure, statement, restore, rolled_back, exec, bind-eq, statement-eq,
}
use chain_data_service.Db.Transaction.{to_row, insert_all, insert_and_commit, add_transactions}

module _ {F : Type 0} where
  -- A table after a batch: each row whose signature is new goes to the end.
  unfoldable pub stored : List (Transaction F) → List (TransactionRow F) → List (TransactionRow F)
  stored [] rows = rows
  stored (t ∷ ts) rows =
      stored ts (if has_signature t.signature rows then rows else rows ++ to_row t ∷ [])

  abbrev pub after_batch : List (Transaction F) → Db F → Db F
  after_batch ts db = record db { transactions = stored ts db.transactions }

  -- Each row that would be inserted satisfies its foreign keys.
  abbrev pub AllReferencesOk : Db F → List (Transaction F) → Type 0
  AllReferencesOk db ts = All (λ t. references_ok db.tracked (to_row t) ≡ true) ts

  insert_transaction-eq :
      (t : Transaction F) (db : Db F)
      → references_ok db.tracked (to_row t) ≡ true
      → insert_transaction (to_row t) db ≡ (ok tt, after_batch (t ∷ []) db)
  unfolding insert_transaction stored to_row
  insert_transaction-eq t db p = ground (arith, p)

module _ {F S : Type 0} where
  insert_all-ok :
      (ts : List (Transaction F)) (w : World F S)
      → (insert_all ts w).0 ≡ ok tt
      → (insert_all ts w).1.db ≡ after_batch ts w.db
  unfolding insert_all insert_transaction stored to_row ◌>>=◌ statement pure
  insert_all-ok [] w h = refl
  insert_all-ok (t ∷ ts) w h =
      ground (arith, insert_all-ok ts (statement (insert_transaction (to_row t)) w).1)

  insert_all-total :
      (ts : List (Transaction F)) (w : World F S)
      → IsCalm w
      → AllReferencesOk w.db ts
      → (k : ℕ) × (insert_all ts w ≡ (ok tt, record w { db = after_batch ts w.db; issued = k }))
  unfolding insert_all stored pure
  insert_all-total [] w calm h = (w.issued, refl)
  insert_all-total (t ∷ ts) w calm (p, h) =
      let first = statement-eq _ w (calm w.issued) (insert_transaction-eq t w.db p) in
      let (k, rest) =
        insert_all-total ts (record w { db = after_batch (t ∷ []) w.db; issued = suc w.issued })
          calm h in
      (k, bind-eq _ _ w _ first ∙ rest)

  -- A batch is stored whole or not at all, whichever statement fails: when `add_transactions`
  -- succeeds, the table has gained each row of the batch whose signature was new, in order, and the
  -- tracked addresses are as they were; when it fails, the database is as it was.
  pub add_transactions-atomic :
      (ts : List (Transaction F)) (w : World F S)
      → ((add_transactions ts w).0 ≡ ok tt → (add_transactions ts w).1.db ≡ after_batch ts w.db)
        × ((e : SqlxError)
            → (add_transactions ts w).0 ≡ err e
            → (add_transactions ts w).1.db ≡ w.db)
  unfolding add_transactions insert_and_commit exec
  add_transactions-atomic ts w = (
    λ h. ground (arith, insert_all-ok ts (record w { issued = suc w.issued })),
    λ e h. ground arith,
  )

  -- A batch is stored, and the call succeeds, whenever no statement fails and each of its rows
  -- refers to tracked addresses.
  pub add_transactions_complete :
      (ts : List (Transaction F)) (w : World F S)
      → IsCalm w
      → AllReferencesOk w.db ts
      → (k : ℕ) × (add_transactions ts w
          ≡ (ok tt, record w { db = after_batch ts w.db; issued = k }))
  unfolding add_transactions insert_and_commit rolled_back
  add_transactions_complete ts w calm h =
      let begun : World F S = record w { issued = suc w.issued } in
      let (k, all) = insert_all-total ts begun calm h in
      let stored_all : World F S = record w { db = after_batch ts w.db; issued = k } in
      let commit = statement-eq (λ db. (ok tt, db)) stored_all (calm k) refl in
      (
        suc k,
        bind-eq _ _ w begun (statement-eq _ w (calm w.issued) refl)
            ∙ ap (restore w.db) (bind-eq _ _ begun stored_all all ∙ commit),
      )
