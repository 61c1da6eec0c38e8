-- ===== src/Validation/Laws.antt =====
-- What the checks of src/validation.rs accept.
use chain_data_service.Base.{
  ℕ, String, Option, some, List, ◌≡◌, ◌⊎◌, ◌↔◌, false, ok, arith, ℤ, pos, ◌≤ℤ◌, length, is_blank,
  from_str, eq_iff, Option-cases, inl, inr,
}
use chain_data_service.Validation.{
  validate_action, validate_offset, validate_limit, validate_solana_address,
  validate_address_action,
}

-- A limit is accepted exactly if its text is an integer from 1 to 1000, and is that integer.
pub validate_limit_iff :
    (text : String) (n : ℤ)
    → (validate_limit text ≡ ok n) ↔ ((from_str text ≡ some n) × (pos 1 ≤ℤ n) × (n ≤ℤ pos 1000))
unfolding validate_limit
validate_limit_iff text n = (λ h. ground arith, λ h. ground arith)

-- An offset is accepted exactly if its text is an integer that is not negative, and is that
-- integer.
pub validate_offset_iff :
    (text : String) (n : ℤ)
    → (validate_offset text ≡ ok n) ↔ ((from_str text ≡ some n) × (pos 0 ≤ℤ n))
unfolding validate_offset
validate_offset_iff text n = (λ h. ground arith, λ h. ground arith)

pub validate_action_iff :
    (action : String) → (validate_action action ≡ ok tt) ↔ ((action ≡ "add") ⊎ (action ≡ "remove"))
unfolding validate_action
validate_action_iff action = (
  λ h. ground (arith, eq_iff action "add", eq_iff action "remove"),
  λ h. ground (arith, eq_iff action "add", eq_iff action "remove"),
)

action_not_blank :
    (action : String) → (action ≡ "add") ⊎ (action ≡ "remove") → is_blank action ≡ false
unfolding is_blank
action_not_blank action (inl e) = rw e
action_not_blank action (inr e) = rw e

module _ (decode : String → Option (List ℕ)) where
  abbrev pub IsAddress : String → Type 0
  IsAddress a =
      (is_blank a ≡ false) × (bytes : List ℕ) × (decode a ≡ some bytes) × (length bytes ≡ 32)

  -- An address is accepted exactly if it is not blank and decodes to 32 bytes.
  pub validate_solana_address_iff :
      (a : String) → (validate_solana_address decode a ≡ ok tt) ↔ IsAddress a
  unfolding validate_solana_address
  validate_solana_address_iff a = elim (Option-cases (decode a)) [
    | inl e ↦ (λ h. absurd (ground arith), λ h. absurd (ground arith))
    | inr (bytes, e) ↦ (λ h. (ground arith, bytes, e, ground arith), λ h. ground arith)
  ]

  -- An address and an action are accepted exactly if the action is "add" or "remove" and the
  -- address is not blank and decodes to 32 bytes.
  pub validate_address_action_iff :
      (a action : String)
      → (validate_address_action decode a action ≡ ok tt)
        ↔ (((action ≡ "add") ⊎ (action ≡ "remove")) × IsAddress a)
  unfolding validate_address_action
  validate_address_action_iff a action = (
    λ h. (
      (validate_action_iff action).0 (ground arith),
      (validate_solana_address_iff a).0 (ground arith),
    ),
    λ (known, valid).
        let p = (validate_action_iff action).1 known in
        let q = (validate_solana_address_iff a).1 valid in
        ground (arith, p, q, action_not_blank action known),
  )
