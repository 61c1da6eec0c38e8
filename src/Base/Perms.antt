-- ===== src/Base/Perms.antt =====
-- What a permutation keeps, for the predicates and the lengths of this library.
use Prim.Native.Nat.{suc}
use mathlib.Core.Path.{◌≡◌, refl, sym, subst, ap, ◌∙◌}
use mathlib.Core.Logic.{∥∥₁_elim}
use mathlib.Core.List.{
  List, [], ◌∷◌, ◌++◌, Perm, Permᴰ, Perm-prop, flatten, append_assoc, perm_append_comm,
}
use mathlib.Core.List.Perm
use native.Mathlib.Nat.{ℕ_set}
use chain_data_service.Base.Lists.{All, length}

module _ {ℓ κ} {A : Type ℓ} (P : A → Type κ) where
  All-prop : ((x : A) → IsProp (P x)) → (xs : List A) → IsProp (All P xs)
  All-prop prop [] = hlevel
  All-prop prop (x ∷ xs) = hlevel (prop, All-prop prop xs)

  All-perm_d : {xs ys : List A} → Permᴰ xs ys → All P xs → All P ys
  All-perm_d Permᴰ.nil h = h
  All-perm_d (Permᴰ.cons e r) (p, h) = (subst P e p, All-perm_d r h)
  All-perm_d (Permᴰ.swap e f) (p, (q, h)) = (subst P f q, (subst P e p, h))
  All-perm_d (Permᴰ.trans r s) h = All-perm_d s (All-perm_d r h)

  pub All-perm : ((x : A) → IsProp (P x)) → {xs ys : List A} → Perm ys xs → All P xs → All P ys
  All-perm prop {xs} {ys} r h = ∥∥₁_elim (Perm.symm r) (All-prop prop ys) (λ d. All-perm_d d h)

module _ {ℓ} {A : Type ℓ} where
  length-perm_d : {xs ys : List A} → Permᴰ xs ys → length xs ≡ length ys
  length-perm_d Permᴰ.nil = refl
  length-perm_d (Permᴰ.cons e r) = ap suc (length-perm_d r)
  length-perm_d (Permᴰ.swap e f) = refl
  length-perm_d (Permᴰ.trans r s) = length-perm_d r ∙ length-perm_d s

  pub length-perm : {xs ys : List A} → Perm xs ys → length xs ≡ length ys
  length-perm r = ∥∥₁_elim r (ℕ_set _ _) length-perm_d

  pub swap_blocks : (xs ys zs : List A) → Perm (xs ++ (ys ++ zs)) (ys ++ (xs ++ zs))
  swap_blocks xs ys zs =
      rw (← append_assoc xs ys zs, ← append_assoc ys xs zs)
        (Perm.append_right zs (perm_append_comm xs ys))

  flatten-perm_d : {xs ys : List (List A)} → Permᴰ xs ys → Perm (flatten xs) (flatten ys)
  unfolding flatten
  flatten-perm_d Permᴰ.nil = Perm.nil
  flatten-perm_d (Permᴰ.cons {b = y} e r) = rw e (Perm.append_left y (flatten-perm_d r))
  flatten-perm_d (Permᴰ.swap {a' = x} {b' = y} {l = l} e f) =
      rw (e, f) (swap_blocks y x (flatten l))
  flatten-perm_d (Permᴰ.trans r s) = Perm.trans (flatten-perm_d r) (flatten-perm_d s)

  pub flatten-perm : {xs ys : List (List A)} → Perm xs ys → Perm (flatten xs) (flatten ys)
  flatten-perm r = ∥∥₁_elim r Perm-prop flatten-perm_d

  pub flatten-append : (xs ys : List (List A)) → flatten (xs ++ ys) ≡ flatten xs ++ flatten ys
  unfolding flatten
  flatten-append [] ys = refl
  flatten-append (x ∷ xs) ys =
      ap (λ l. x ++ l) (flatten-append xs ys) ∙ sym (append_assoc x (flatten xs) (flatten ys))
