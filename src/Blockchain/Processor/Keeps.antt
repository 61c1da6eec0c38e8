-- ===== src/Blockchain/Processor/Keeps.antt =====
-- What the workers of src/blockchain/worker_pool.rs do to the tables: they keep them consistent.
use chain_data_service.Base.{
  ℕ, suc, ◌+◌, map, String, Option, List, [], ◌∷◌, Result, ok, err, ℤ, All, All-append, All-map,
  All-filter_by-of, length,
}
use chain_data_service.Models.{Transaction}
use chain_data_service.Db.Tables.{SqlxError, Db, TransactionRow}
use chain_data_service.Db.Transaction.{to_row}
use chain_data_service.Db.Exec.{Exec, World}
use chain_data_service.Db.Address.{get_all_tracked_addresses}
use chain_data_service.Db.Invariant.{IsConsistent}
use chain_data_service.Db.Keeps.{
  Keeps, IsStable, IsConsistent-IsStable, pure-Keeps, bind-Keeps, statement-Keeps,
  add_address-Keeps, add_transactions-Keeps,
}
use chain_data_service.Blockchain.Services.{Services, chunks, fetch_all}
use chain_data_service.Blockchain.Services.Laws.{IsYielded, fetch_all-IsYielded}
use chain_data_service.Blockchain.Processor.{
  SetOrder, attempt, register_all, fetch_relevant, collect, store, process_transaction_batch,
  process_tracked, process_batch, run,
}

-- What the node yields makes rows that satisfy `Q`.
module _ {F : Type 0} (Q : TransactionRow F → Type 0) (services : Services F)
    (yields : (t : Transaction F) → IsYielded services t → Q (to_row t)) where
  fetch_all-All :
      (n : ℕ) (signatures : List String) → All (λ t. Q (to_row t)) (fetch_all services n signatures)
  fetch_all-All n signatures =
      All-map _ _ (fetch_all services n signatures) yields
        (fetch_all-IsYielded services n signatures)

  fetch_relevant-All :
      (tracked : List String) (n : ℕ) (chunks : List (List String))
      → All (λ t. Q (to_row t)) (fetch_relevant services tracked n chunks)
  unfolding fetch_relevant
  fetch_relevant-All tracked n [] = tt
  fetch_relevant-All tracked n (chunk ∷ rest) =
      All-append _ _ (fetch_relevant services tracked (n + length chunk) rest)
        (All-filter_by-of _ _ (fetch_all services n chunk) (fetch_all-All n chunk))
        (fetch_relevant-All tracked (n + length chunk) rest)

module _ {F S : Type 0} (P : Db F → Type 0) {Q : TransactionRow F → Type 0}
    (stable : IsStable P Q) where
  attempt-Keeps : {A : Type 0} (m : Exec F S A) → Keeps P m → Keeps P (attempt m)
  unfolding attempt
  attempt-Keeps m k = record { run = k.run }

  all_tracked-Keeps : Keeps {S = S} P get_all_tracked_addresses
  unfolding get_all_tracked_addresses
  all_tracked-Keeps = bind-Keeps P _ _ (statement-Keeps P _ (λ db h. h)) λ rows. pure-Keeps P _

  module _ (decode : String → Option (List ℕ)) (clock : ℕ → ℤ) where
    register_all-Keeps :
        (n : ℕ) (addresses : List String) → Keeps {S = S} P (register_all decode clock n addresses)
    unfolding register_all
    register_all-Keeps n [] = pure-Keeps P tt
    register_all-Keeps n (a ∷ rest) =
        bind-Keeps P _ _ (attempt-Keeps _ (add_address-Keeps P stable decode (clock n) a))
          λ _. register_all-Keeps (suc n) rest

    store-Keeps :
        (set : SetOrder) (n : ℕ) (ts : List (Transaction F))
        → All (λ t. Q (to_row t)) ts
        → Keeps {S = S} P (store decode clock set n ts)
    unfolding store
    store-Keeps set n [] h = pure-Keeps P 0
    store-Keeps set n (t ∷ ts) h = bind-Keeps P _ _ (register_all-Keeps n _) λ _.
        bind-Keeps P _ _ (attempt-Keeps _ (add_transactions-Keeps P stable (t ∷ ts) h))
          λ r. pure-Keeps P _

    module _ (services : Services F) (set : SetOrder)
        (yields : (t : Transaction F) → IsYielded services t → Q (to_row t)) where
      process_tracked-Keeps :
          (asked : ℕ) (ts : List (Transaction F)) (r : Result (List String) SqlxError)
          → Keeps {S = S} P (process_tracked decode clock services set asked ts r)
      unfolding process_tracked process_transaction_batch
      process_tracked-Keeps asked ts (err e) = pure-Keeps P tt
      process_tracked-Keeps asked ts (ok addresses) =
          bind-Keeps P _ _
            (store-Keeps set _ _ (
              fetch_relevant-All Q services yields (collect [] addresses) asked
                (chunks 10 (map (λ (t : Transaction F). t.signature) ts))))
            λ _. pure-Keeps P tt

      process_batch-Keeps :
          (asked : ℕ) (ts : List (Transaction F))
          → Keeps {S = S} P (process_batch decode clock services set asked ts)
      unfolding process_batch
      process_batch-Keeps asked [] = pure-Keeps P tt
      process_batch-Keeps asked (t ∷ ts) =
          bind-Keeps P _ _ (attempt-Keeps _ all_tracked-Keeps)
            λ r. process_tracked-Keeps asked (t ∷ ts) r

      pub run-Keeps :
          (asked : ℕ) (batches : List (List (Transaction F)))
          → Keeps {S = S} P (run decode clock services set asked batches)
      unfolding run
      run-Keeps asked [] = pure-Keeps P tt
      run-Keeps asked (batch ∷ rest) =
          bind-Keeps P _ _ (attempt-Keeps _ (process_batch-Keeps asked batch))
            λ _. run-Keeps (asked + length batch) rest

-- Whatever batches a worker receives, whatever the node answers and whatever statements fail,
-- a consistent database stays consistent.
pub run-IsConsistent :
    {F S : Type 0} (decode : String → Option (List ℕ)) (clock : ℕ → ℤ) (services : Services F)
    (set : SetOrder) (asked : ℕ) (batches : List (List (Transaction F))) (w : World F S)
    → IsConsistent w.db
    → IsConsistent (run decode clock services set asked batches w).1.db
run-IsConsistent decode clock services set asked batches w h =
    (run-Keeps IsConsistent IsConsistent-IsStable decode clock services set (λ t y. tt) asked
        batches).run
      w h
