-- ===== src/Blockchain/Processor/Spares.antt =====
-- The workers of src/blockchain/worker_pool.rs do not touch the caches of the program.
use chain_data_service.Base.{ℕ, suc, ◌+◌, length, String, Option, List, [], ◌∷◌, Result, ok, err, ℤ}
use chain_data_service.Models.{Transaction}
use chain_data_service.Db.Tables.{SqlxError}
use chain_data_service.Db.Exec.{Exec}
use chain_data_service.Db.Spares.{
  Spares, spares, pure-Spares, bind-Spares, add_address-Spares, all_tracked-Spares,
  add_transactions-Spares,
}
use chain_data_service.Blockchain.Services.{Services}
use chain_data_service.Blockchain.Processor.{
  SetOrder, attempt, register_all, store, process_transaction_batch, process_tracked, process_batch,
  run,
}

module _ {F S : Type 0} where
  attempt-Spares : {A : Type 0} (m : Exec F S A) → Spares m → Spares (attempt m)
  unfolding attempt
  attempt-Spares m k = record { run = k.run }

  module _ (decode : String → Option (List ℕ)) (clock : ℕ → ℤ) where
    register_all-Spares :
        (n : ℕ) (addresses : List String)
        → Spares {F = F} {S = S} (register_all decode clock n addresses)
    unfolding register_all
    register_all-Spares n [] = search spares
    register_all-Spares n (a ∷ rest) =
        bind-Spares _ _ (attempt-Spares _ (add_address-Spares decode (clock n) a))
          λ _. register_all-Spares (suc n) rest

    store-Spares :
        (set : SetOrder) (n : ℕ) (ts : List (Transaction F))
        → Spares {S = S} (store decode clock set n ts)
    unfolding store
    store-Spares set n [] = search spares
    store-Spares set n (t ∷ ts) =
        search (spares, attempt-Spares, register_all-Spares, add_transactions-Spares)

    module _ (services : Services F) (set : SetOrder) where
      process_tracked-Spares :
          (asked : ℕ) (ts : List (Transaction F)) (r : Result (List String) SqlxError)
          → Spares {S = S} (process_tracked decode clock services set asked ts r)
      unfolding process_tracked process_transaction_batch
      process_tracked-Spares asked ts (err e) = search spares
      process_tracked-Spares asked ts (ok addresses) = search (spares, store-Spares)

      process_batch-Spares :
          (asked : ℕ) (ts : List (Transaction F))
          → Spares {S = S} (process_batch decode clock services set asked ts)
      unfolding process_batch
      process_batch-Spares asked [] = search spares
      process_batch-Spares asked (t ∷ ts) =
          search (spares, attempt-Spares, all_tracked-Spares, process_tracked-Spares)

      pub run-Spares :
          (asked : ℕ) (batches : List (List (Transaction F)))
          → Spares {S = S} (run decode clock services set asked batches)
      unfolding run
      run-Spares asked [] = pure-Spares tt
      run-Spares asked (batch ∷ rest) =
          bind-Spares _ _ (attempt-Spares _ (process_batch-Spares asked batch))
            λ _. run-Spares (asked + length batch) rest
