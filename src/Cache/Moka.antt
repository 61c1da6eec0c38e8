-- ===== src/Cache/Moka.antt =====
-- `moka::future::Cache`, which the repository only calls: the operations that src/cache uses, with
-- what its documentation promises. An entry may be gone at any call, by expiry or eviction; one
-- that is found is the last one stored under its key.
use chain_data_service.Base.{ℕ, Bool, Option, none, some, Result, ◌≡◌, ◌≢◌, ◌⊎◌}

pub record Moka (K V : Type 0) : Type 1 where
  pub Store : Type 0
  -- `builder().max_capacity(c).time_to_live(d).build()`
  pub build : (max_capacity time_to_live : ℕ) → Store
  pub get : K → Store → Option V
  pub insert : K → V → Store → Store
  pub invalidate : K → Store → Store
  -- The result says whether the predicate was accepted.
  pub invalidate_entries_if : (K → V → Bool) → Store → Result (Unit {0}) (Unit {0}) × Store
  pub get-build : (c d : ℕ) (k : K) → get k (build c d) ≡ none
  pub get-insert :
      (k j : K) (v w : V) (s : Store)
      → get k (insert j v s) ≡ some w
      → ((k ≡ j) × (w ≡ v)) ⊎ ((k ≢ j) × (get k s ≡ some w))
  pub get-invalidate :
      (k j : K) (w : V) (s : Store) → get k (invalidate j s) ≡ some w → (k ≢ j) × (get k s ≡ some w)
