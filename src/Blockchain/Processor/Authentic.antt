-- ===== src/Blockchain/Processor/Authentic.antt =====
-- What the workers of src/blockchain/worker_pool.rs store comes from the node.
use chain_data_service.Base.{
  ℕ, String, Option, List, [], ◌∷◌, ℤ, ◌≡◌, refl, ltb, ◌&&◌, All, All-append, inl, inr, Bool-cases,
}
use chain_data_service.Models.{Transaction}
use chain_data_service.Db.Tables.{
  Db, TransactionRow, insert_transaction, delete_address, has_signature, references_ok,
  count_address, has_reference,
}
use chain_data_service.Db.Exec.{World}
use chain_data_service.Db.Keeps.{IsStable}
use chain_data_service.Db.Transaction.{to_row}
use chain_data_service.Blockchain.Services.{Services}
use chain_data_service.Blockchain.Services.Laws.{IsYielded}
use chain_data_service.Blockchain.Processor.{SetOrder, run}
use chain_data_service.Blockchain.Processor.Keeps.{run-Keeps}

module _ {F : Type 0} (services : Services F) where
  -- The row of a transaction that the node yields.
  abbrev pub IsAuthentic : TransactionRow F → Type 0
  IsAuthentic r = (t : Transaction F) × IsYielded services t × (r ≡ to_row t)

  abbrev AllAuthentic : Db F → Type 0
  AllAuthentic db = All IsAuthentic db.transactions

  delete_address-AllAuthentic :
      (a : String) (db : Db F) → AllAuthentic db → AllAuthentic (delete_address a db).1
  unfolding delete_address
  delete_address-AllAuthentic a db h =
      elim (Bool-cases (ltb 0 (count_address a db.tracked) && has_reference a db.transactions)) [
        | inl held ↦ rw held h
        | inr free ↦ rw free h
      ]

  insert_transaction-AllAuthentic :
      (r : TransactionRow F) (db : Db F)
      → IsAuthentic r
      → AllAuthentic db
      → AllAuthentic (insert_transaction r db).1
  unfolding insert_transaction
  insert_transaction-AllAuthentic r db q h =
      elim (Bool-cases (has_signature r.signature db.transactions)) [
        | inl known ↦ rw known h
        | inr fresh ↦ rw fresh (elim (Bool-cases (references_ok db.tracked r)) [
          | inl good ↦ rw good (All-append IsAuthentic db.transactions (r ∷ []) h (q, tt))
          | inr bad ↦ rw bad h
        ])
      ]

  AllAuthentic-IsStable : IsStable AllAuthentic IsAuthentic
  AllAuthentic-IsStable = record {
    upserts = λ a now db h. h;
    deletes = delete_address-AllAuthentic;
    inserts = insert_transaction-AllAuthentic;
  }

  -- Whatever batches a worker receives, whatever the node answers and whatever statements fail: if
  -- every stored row is that of a transaction which the node yields, then so is every row that is
  -- stored in the end, field by field; nothing is taken from the batches but signatures.
  pub run-AllAuthentic :
      {S : Type 0} (decode : String → Option (List ℕ)) (clock : ℕ → ℤ) (set : SetOrder) (asked : ℕ)
      (batches : List (List (Transaction F))) (w : World F S)
      → All IsAuthentic w.db.transactions
      → All IsAuthentic (run decode clock services set asked batches w).1.db.transactions
  run-AllAuthentic decode clock set asked batches w h =
      (run-Keeps AllAuthentic AllAuthentic-IsStable decode clock services set (λ t y. (t, y, refl))
          asked batches).run
        w h
