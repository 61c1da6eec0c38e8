-- ===== src/Blockchain/Services/Laws.antt =====
-- Cutting into chunks loses nothing, and neither does fetching chunk by chunk.
use native.Mathlib.Nat.{add-zero}
use chain_data_service.Base.{
  ℕ, zero, suc, ◌+◌, ◌≤◌, ◌≡◌, refl, ap, ◌∙◌, sym, String, All, some, List, [], ◌∷◌, ◌++◌, flatten,
  length, take_rows, drop_rows, take_rows-append-drop_rows, arith, inl, inr, Option-cases,
}
use chain_data_service.Models.{Transaction}
use chain_data_service.Blockchain.Services.{Services, chunks_with, chunks, fetch, fetch_all}

module _ {ℓ} {A : Type ℓ} where
  length-drop_rows-le : (n : ℕ) (xs : List A) → length (drop_rows n xs) ≤ length xs
  unfolding drop_rows
  length-drop_rows-le zero xs = omega arith
  length-drop_rows-le (suc n) [] = omega arith
  length-drop_rows-le (suc n) (x ∷ xs) = omega (arith, length-drop_rows-le n xs)

  flatten-chunks_with :
      (fuel size : ℕ) (xs : List A)
      → length xs ≤ fuel
      → flatten (chunks_with fuel (suc size) xs) ≡ xs
  unfolding chunks_with flatten drop_rows take_rows
  flatten-chunks_with zero size [] h = refl
  flatten-chunks_with zero size (x ∷ xs) h = absurd (omega arith)
  flatten-chunks_with (suc fuel) size [] h = refl
  flatten-chunks_with (suc fuel) size (x ∷ xs) h = ap (◌∷◌ x) (
      ap (◌++◌ (take_rows size xs)) (
        flatten-chunks_with fuel size (drop_rows size xs)
          (omega (arith, length-drop_rows-le size xs)))
      ∙ take_rows-append-drop_rows size xs)

  -- The chunks of a list make up the list.
  pub flatten-chunks : (size : ℕ) (xs : List A) → flatten (chunks (suc size) xs) ≡ xs
  unfolding chunks
  flatten-chunks size xs = flatten-chunks_with (length xs) size xs (omega arith)

module _ {F : Type 0} (services : Services F) where
  pub fetch_all-append :
      (n : ℕ) (xs ys : List String)
      → fetch_all services n (xs ++ ys)
        ≡ fetch_all services n xs ++ fetch_all services (n + length xs) ys
  unfolding fetch_all
  fetch_all-append n [] ys = rw add-zero
  fetch_all-append n (x ∷ xs) ys =
      let more : suc n + length xs ≡ n + suc (length xs) = omega arith in
      let rest = ap (λ k. fetch_all services (suc n) xs ++ fetch_all services k ys) more in
      let both = fetch_all-append (suc n) xs ys ∙ rest in
      elim (Option-cases (fetch services n x)) [
        | inl e ↦ rw (e, fetch_all) both
        | inr (t, e) ↦ rw (e, fetch_all) (ap (◌∷◌ t) both)
      ]

  -- What is fetched chunk by chunk, from the n-th request on.
  unfoldable pub fetch_chunks : ℕ → List (List String) → List (Transaction F)
  fetch_chunks n [] = []
  fetch_chunks n (chunk ∷ rest) = fetch_all services n chunk ++ fetch_chunks (n + length chunk) rest

  pub fetch_chunks-flatten :
      (n : ℕ) (chunks : List (List String))
      → fetch_chunks n chunks ≡ fetch_all services n (flatten chunks)
  unfolding fetch_chunks fetch_all flatten
  fetch_chunks-flatten n [] = refl
  fetch_chunks-flatten n (chunk ∷ rest) =
      rw (fetch_chunks-flatten (n + length chunk) rest)
        (sym (fetch_all-append n chunk (flatten rest)))

module _ {F : Type 0} (services : Services F) where
  -- The node yields a transaction at some request.
  abbrev pub IsYielded : Transaction F → Type 0
  IsYielded t = (n : ℕ) × (signature : String) × (fetch services n signature ≡ some t)

  pub fetch_all-IsYielded :
      (n : ℕ) (signatures : List String) → All IsYielded (fetch_all services n signatures)
  unfolding fetch_all
  fetch_all-IsYielded n [] = tt
  fetch_all-IsYielded n (s ∷ ss) = elim (Option-cases (fetch services n s)) [
    | inl e ↦ rw (e, fetch_all) (fetch_all-IsYielded (suc n) ss)
    | inr (t, e) ↦ rw (e, fetch_all) ((n, s, e), fetch_all-IsYielded (suc n) ss)
  ]
