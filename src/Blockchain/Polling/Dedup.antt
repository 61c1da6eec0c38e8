-- ===== src/Blockchain/Polling/Dedup.antt =====
-- `sort_unstable` and `dedup` on the signatures that `poll_new_transactions` of
-- src/blockchain/polling.rs collects.
use chain_data_service.Base.{
  String, List, [], ◌∷◌, ◌≡◌, refl, arith, mem, ◌||◌, str_eq, eq_iff, codes, inl, inr, Bool-cases,
}
use chain_data_service.Blockchain.Polling.{
  before_codes, insert_sorted, sort_unstable, dedup_after, dedup,
}

mem-insert_sorted :
    (b a : String) (xs : List String) → mem b (insert_sorted a xs) ≡ (str_eq a b || mem b xs)
unfolding insert_sorted mem
mem-insert_sorted b a [] = refl
mem-insert_sorted b a (x ∷ xs) = elim (Bool-cases (before_codes (codes a) (codes x))) [
  | inl e ↦ rw e refl
  | inr e ↦ rw e (ground (arith, mem-insert_sorted b a xs))
]

mem-sort_unstable : (b : String) (xs : List String) → mem b (sort_unstable xs) ≡ mem b xs
unfolding sort_unstable mem
mem-sort_unstable b [] = refl
mem-sort_unstable b (x ∷ xs) =
    ground (arith, mem-insert_sorted b x (sort_unstable xs), mem-sort_unstable b xs)

mem-dedup_after :
    (b a : String) (xs : List String)
    → (str_eq a b || mem b (dedup_after a xs)) ≡ (str_eq a b || mem b xs)
unfolding dedup_after mem
mem-dedup_after b a [] = refl
mem-dedup_after b a (x ∷ xs) =
    ground
      (arith, mem-dedup_after b a xs, mem-dedup_after b x xs, eq_iff x a, eq_iff x b, eq_iff a b)

-- Sorting the signatures and removing the repetitions loses no signature and makes none up.
pub mem-dedup :
    (signature : String) (signatures : List String)
    → mem signature (dedup (sort_unstable signatures)) ≡ mem signature signatures
unfolding dedup mem
mem-dedup signature signatures =
    ground (arith, of_dedup (sort_unstable signatures), mem-sort_unstable signature signatures)
  where
    of_dedup : (xs : List String) → mem signature (dedup xs) ≡ mem signature xs
    of_dedup [] = refl
    of_dedup (x ∷ xs) = mem-dedup_after signature x xs
