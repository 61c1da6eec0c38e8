-- ===== src/Base/Lists.antt =====
-- Lists measured by native numbers, Boolean filters, and predicates over lists.
use Prim.Native.Nat.{ℕ, zero, suc, ◌+◌, ◌≤◌}
use Prim.Native.String.{String}
use mathlib.Core.Path.{◌≡◌, refl, ap}
use mathlib.Core.Bool.{Bool, true, false, ◌||◌}
use mathlib.Core.List.{List, [], ◌∷◌, ◌++◌}
use mathlib.Core.Option.{Option, none, some}
use native.Mathlib.Omega.{arith}
use text.Mathlib.Text.{◌==◌ as str_eq}
use chain_data_service.Base.Tests.{if◌then◌else◌}

-- `contains` of a set of texts that is kept as a list.
unfoldable pub mem : String → List String → Bool
mem a [] = false
mem a (x ∷ xs) = str_eq x a || mem a xs

module _ {ℓ} {A : Type ℓ} where
  abbrev pub length : List A → ℕ
  length [] = 0
  length (x ∷ xs) = suc (length xs)

  abbrev pub get_elem? : List A → ℕ → Option A
  get_elem? [] i = none
  get_elem? (x ∷ xs) zero = some x
  get_elem? (x ∷ xs) (suc i) = get_elem? xs i

  unfoldable pub filter_by : (A → Bool) → List A → List A
  filter_by p [] = []
  filter_by p (x ∷ xs) = if p x then x ∷ filter_by p xs else filter_by p xs

  unfoldable pub take_rows : ℕ → List A → List A
  take_rows zero xs = []
  take_rows (suc n) [] = []
  take_rows (suc n) (x ∷ xs) = x ∷ take_rows n xs

  unfoldable pub drop_rows : ℕ → List A → List A
  drop_rows zero xs = xs
  drop_rows (suc n) [] = []
  drop_rows (suc n) (x ∷ xs) = drop_rows n xs

  abbrev pub All {κ} : (A → Type κ) → List A → Type κ
  All P [] = Unit
  All P (x ∷ xs) = P x × All P xs

  pub length-append : (xs ys : List A) → length (xs ++ ys) ≡ length xs + length ys
  length-append [] ys = omega arith
  length-append (x ∷ xs) ys = omega (arith, length-append xs ys)

  pub length-take_rows-le : (n : ℕ) (xs : List A) → length (take_rows n xs) ≤ n
  unfolding take_rows
  length-take_rows-le zero xs = omega arith
  length-take_rows-le (suc n) [] = omega arith
  length-take_rows-le (suc n) (x ∷ xs) = omega (arith, length-take_rows-le n xs)

  pub take_rows-append-drop_rows : (n : ℕ) (xs : List A) → take_rows n xs ++ drop_rows n xs ≡ xs
  unfolding take_rows drop_rows
  take_rows-append-drop_rows zero xs = refl
  take_rows-append-drop_rows (suc n) [] = refl
  take_rows-append-drop_rows (suc n) (x ∷ xs) = ap (◌∷◌ x) (take_rows-append-drop_rows n xs)

module _ {ℓ κ} {A : Type ℓ} (P : A → Type κ) where
  pub All-append : (xs ys : List A) → All P xs → All P ys → All P (xs ++ ys)
  All-append [] ys h k = k
  All-append (x ∷ xs) ys (p, h) k = (p, All-append xs ys h k)

  pub All-take_rows : (n : ℕ) (xs : List A) → All P xs → All P (take_rows n xs)
  unfolding take_rows
  All-take_rows zero xs h = tt
  All-take_rows (suc n) [] h = tt
  All-take_rows (suc n) (x ∷ xs) (p, h) = (p, All-take_rows n xs h)

  pub All-drop_rows : (n : ℕ) (xs : List A) → All P xs → All P (drop_rows n xs)
  unfolding drop_rows
  All-drop_rows zero xs h = h
  All-drop_rows (suc n) [] h = tt
  All-drop_rows (suc n) (x ∷ xs) (p, h) = All-drop_rows n xs h

  pub All-filter_by-of : (p : A → Bool) (xs : List A) → All P xs → All P (filter_by p xs)
  unfolding filter_by
  All-filter_by-of p [] h = tt
  All-filter_by-of p (x ∷ xs) (q, h) = ground (arith, q, All-filter_by-of p xs h)

pub All-map :
    {A : Type 0} (P Q : A → Type 0) (xs : List A) → ((x : A) → P x → Q x) → All P xs → All Q xs
All-map P Q [] f h = tt
All-map P Q (x ∷ xs) f (p, h) = (f x p, All-map P Q xs f h)

module _ {ℓ} {A : Type ℓ} where
  pub All-filter_by : (p : A → Bool) (xs : List A) → All (λ x. p x ≡ true) (filter_by p xs)
  unfolding filter_by
  All-filter_by p [] = tt
  All-filter_by p (x ∷ xs) = ground (arith, All-filter_by p xs)

  pub filter_by-append :
      (p : A → Bool) (xs ys : List A) → filter_by p (xs ++ ys) ≡ filter_by p xs ++ filter_by p ys
  unfolding filter_by
  filter_by-append p [] ys = refl
  filter_by-append p (x ∷ xs) ys = ground (arith, filter_by-append p xs ys)
