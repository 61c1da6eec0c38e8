-- ===== src/Blockchain/Processor/Sets.antt =====
-- The sets of texts of src/blockchain/processor.rs and src/blockchain/polling.rs: what inserting
-- and collecting keep.
use chain_data_service.Base.{
  ◌≡◌, refl, subst, String, true, List, [], ◌∷◌, ◌++◌, mem, arith, ◌||◌, eq_iff, inl, inr,
  Bool-cases, str_eq,
}
use chain_data_service.Blockchain.Processor.{insert, collect}

pub mem-append : (b : String) (s t : List String) → mem b (s ++ t) ≡ (mem b s || mem b t)
unfolding mem
mem-append b [] t = refl
mem-append b (x ∷ s) t = ground (arith, mem-append b s t)

pub mem-insert : (a b : String) (s : List String) → mem b s ≡ true → mem b (insert a s) ≡ true
unfolding insert
mem-insert a b s h = ground (arith, mem-append b s (a ∷ []))

pub mem-insert_self : (a : String) (s : List String) → mem a (insert a s) ≡ true
unfolding insert mem
mem-insert_self a s = ground (arith, mem-append a s (a ∷ []), eq_iff a a)

pub mem-collect : (b : String) (s xs : List String) → mem b s ≡ true → mem b (collect s xs) ≡ true
unfolding collect
mem-collect b s [] h = h
mem-collect b s (a ∷ xs) h = mem-collect b (insert a s) xs (mem-insert a b s h)

pub mem-collect-head : (a : String) (s xs : List String) → mem a (collect s (a ∷ xs)) ≡ true
unfolding collect
mem-collect-head a s xs = mem-collect a (insert a s) xs (mem-insert_self a s)

-- Each text of a list is in the set that is made of it.
pub mem-collect_all :
    (b : String) (s xs : List String) → mem b xs ≡ true → mem b (collect s xs) ≡ true
unfolding collect mem
mem-collect_all b s [] h = absurd (ground arith)
mem-collect_all b s (a ∷ xs) h = elim (Bool-cases (str_eq a b)) [
  | inl e ↦
      mem-collect b (insert a s) xs
        (subst (λ x. mem x (insert a s) ≡ true) ((eq_iff a b).0 e) (mem-insert_self a s))
  | inr e ↦ mem-collect_all b (insert a s) xs (ground (arith, e))
]
