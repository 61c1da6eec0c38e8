-- ===== src/Blockchain/Processor.antt =====
-- src/blockchain/processor.rs, and `process_batch` of src/blockchain/worker_pool.rs. A `HashSet` is
-- a list without repetitions, whose order of iteration is the field `iterate` of `SetOrder`;
-- `clock` reads the time for the n-th address that is registered. `S` is a state that these
-- functions do not touch.
pub mod Keeps
pub mod Registers
pub mod Complete
pub mod Sets
pub mod Delivers
pub mod Authentic
pub mod Spares
use mathlib.Core.List.{Perm}
use chain_data_service.Base.{
  ℕ, zero, suc, ◌+◌, String, Bool, true, false, Option, none, some, List, [], ◌∷◌, ◌++◌, map,
  Result, ok, err, ℤ, length, mem, filter_by, ◌||◌, ◌==◌, if◌then◌else◌,
}
use chain_data_service.Models.{Transaction}
use chain_data_service.Db.Tables.{SqlxError}
use chain_data_service.Db.Exec.{Exec, World, ◌>>=◌, ◌>>◌, pure}
use chain_data_service.Db.Address.{add_address, get_all_tracked_addresses}
use chain_data_service.Db.Transaction.{add_transactions}
use chain_data_service.Blockchain.Services.{Services, chunks, fetch_all}

pub record SetOrder : Type 0 where
  pub iterate : List String → List String
  pub iterate-perm : (s : List String) → Perm (iterate s) s

-- `HashSet::insert`
unfoldable pub insert : String → List String → List String
insert a s = if mem a s then s else s ++ a ∷ []

-- `if let Some(dest) = destination { s.insert(dest) }`
unfoldable pub insert_destination : Option String → List String → List String
unfolding insert
insert_destination none s = s
insert_destination (some dest) s = insert dest s

-- `collect` into a `HashSet`.
unfoldable pub collect : List String → List String → List String
unfolding insert
collect s [] = s
collect s (a ∷ rest) = collect (insert a s) rest

module _ {F : Type 0} where
  unfoldable pub is_transaction_relevant : List String → Transaction F → Bool
  unfolding mem
  is_transaction_relevant tracked t =
      mem t.source_address tracked
      || elim t.destination_address [ none ↦ false | some dest ↦ mem dest tracked ]

  -- The addresses that a transaction names, added to a set.
  unfoldable pub insert_addresses : Transaction F → List String → List String
  unfolding insert insert_destination
  insert_addresses t s = insert_destination t.destination_address (insert t.source_address s)

  unfoldable pub addresses_to_register : List String → List (Transaction F) → List String
  unfolding insert_addresses
  addresses_to_register s [] = s
  addresses_to_register s (t ∷ ts) = addresses_to_register (insert_addresses t s) ts

  -- `chunks` of size 0 panics.
  unfoldable pub batch_transactions :
      List (Transaction F) → ℕ → Option (List (List (Transaction F)))
  unfolding chunks
  batch_transactions ts size = if size == 0 then none else some (chunks size ts)

module _ {F S A : Type 0} where
  -- An error is logged and the function goes on.
  unfoldable pub attempt : Exec F S A → Exec F S (Result A SqlxError)
  attempt m w = let (r, w') = m w in (ok r, w')

-- `processed`, by the outcome of the insertion.
unfoldable pub processed_of : Result (Unit {0}) SqlxError → ℕ → ℕ
processed_of (ok u) n = n
processed_of (err e) n = 0

-- The relevant transactions of each chunk, from the n-th request on.
unfoldable pub fetch_relevant :
    {F : Type 0} → Services F → List String → ℕ → List (List String) → List (Transaction F)
unfolding fetch_all filter_by is_transaction_relevant
fetch_relevant services tracked n [] = []
fetch_relevant services tracked n (chunk ∷ rest) =
    filter_by (is_transaction_relevant tracked) (fetch_all services n chunk)
    ++ fetch_relevant services tracked (n + length chunk) rest

module _ {F S : Type 0} (decode : String → Option (List ℕ)) (clock : ℕ → ℤ) where
  -- The loop that registers addresses, from the n-th on.
  unfoldable pub register_all : ℕ → List String → Exec F S (Unit {0})
  register_all n [] = pure tt
  register_all n (a ∷ rest) = do attempt (add_address decode (clock n) a); register_all (suc n) rest

  -- The part of `process_transaction_batch` that stores what was fetched, with the addresses
  -- numbered from the n-th on.
  unfoldable pub store : SetOrder → ℕ → List (Transaction F) → Exec F S ℕ
  store set n [] = pure 0
  store set n (t ∷ ts) = do
    register_all n (set.iterate (addresses_to_register [] (t ∷ ts)))
    outcome ← attempt (add_transactions (t ∷ ts))
    pure (processed_of outcome (length (t ∷ ts)))

  module _ (services : Services F) where
    -- `asked` requests have been made before; each transaction names two addresses at most.
    unfoldable pub process_transaction_batch : SetOrder → ℕ → List String → List String → Exec F S ℕ
    unfolding chunks fetch_relevant
    process_transaction_batch set asked signatures tracked =
        store set (asked + asked) (fetch_relevant services tracked asked (chunks 10 signatures))

    -- With the addresses that are tracked, if they could be read.
    unfoldable pub process_tracked :
        SetOrder → ℕ → List (Transaction F) → Result (List String) SqlxError → Exec F S (Unit {0})
    unfolding collect
    process_tracked set asked ts (err e) = pure tt
    process_tracked set asked ts (ok addresses) = do
      process_transaction_batch set asked (map (λ (t : Transaction F). t.signature) ts)
          (collect [] addresses)
      pure tt

    -- The batches that a worker receives are fetched again by their signatures.
    unfoldable pub process_batch : SetOrder → ℕ → List (Transaction F) → Exec F S (Unit {0})
    process_batch set asked [] = pure tt
    process_batch set asked (t ∷ ts) = do
      addresses ← attempt get_all_tracked_addresses
      process_tracked set asked (t ∷ ts) addresses

    -- `run` of a worker on the batches that it takes from the channel until it closes. A batch has
    -- a number of its own for the request of each of its signatures.
    unfoldable pub run : SetOrder → ℕ → List (List (Transaction F)) → Exec F S (Unit {0})
    run set asked [] = pure tt
    run set asked (batch ∷ rest) = do
      attempt (process_batch set asked batch)
      run set (asked + length batch) rest
