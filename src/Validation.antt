-- ===== src/Validation.antt =====
-- src/validation.rs: the checks on request parameters. `bs58::decode` is the parameter `decode`,
-- whose error carries nothing that the code reads.
pub mod Laws
use Prim.Native.String.{◌++◌ as append}
use chain_data_service.Base.{
  ℕ, String, Bool, Option, none, some, List, Result, ok, err, ◌>>=◌, ℤ, pos, ltb_ℤ, leb_ℤ, ◌==◌,
  ◌||◌, if◌then◌else◌, length, is_blank, from_str, str_eq,
}

pub data ValidationError : Type 0 where
  missing_parameter : String → ValidationError
  invalid_action : String → ValidationError
  invalid_solana_address : String → ValidationError
  invalid_parameter : String → ValidationError

-- `ValidationError::to_string`.
unfoldable pub to_string : ValidationError → String
to_string (missing_parameter p) = append "Missing required parameter: " p
to_string (invalid_action a) = append "Invalid action: " (append a ". Must be 'add' or 'remove'")
to_string (invalid_solana_address a) = append "Invalid Solana address format: " a
to_string (invalid_parameter m) = append "Invalid parameter: " m

unfoldable pub validate_action : String → Result (Unit {0}) ValidationError
validate_action action =
    if str_eq action "add" || str_eq action "remove" then ok tt else err (invalid_action action)

-- `from_str` with the error replaced.
abbrev or_invalid : Option ℤ → String → Result ℤ ValidationError
or_invalid (some n) message = ok n
or_invalid none message = err (invalid_parameter message)

unfoldable pub validate_timestamp : String → Result ℤ ValidationError
validate_timestamp timestamp =
    or_invalid (from_str timestamp) (append "Invalid timestamp: " timestamp)

unfoldable pub validate_offset : String → Result ℤ ValidationError
validate_offset text = do
  offset ← or_invalid (from_str text) (append "Invalid offset: " text)
  if ltb_ℤ offset (pos 0) then err (invalid_parameter "Offset must be non-negative") else ok offset

unfoldable pub validate_limit : String → Result ℤ ValidationError
validate_limit text = do
  limit ← or_invalid (from_str text) (append "Invalid limit: " text)
  if leb_ℤ limit (pos 0)
      then err (invalid_parameter "Limit must be positive")
      else if ltb_ℤ (pos 1000) limit
      then err (invalid_parameter "Limit cannot exceed 1000")
      else ok limit

module _ (decode : String → Option (List ℕ)) where
  check_length : String → Option (List ℕ) → Result (Unit {0}) ValidationError
  check_length address none = err (invalid_solana_address address)
  check_length address (some decoded) =
      if length decoded == 32 then ok tt else err (invalid_solana_address address)

  unfoldable pub validate_solana_address : String → Result (Unit {0}) ValidationError
  unfolding check_length
  validate_solana_address address =
      if is_blank address
      then err (missing_parameter "address")
      else check_length address (decode address)

  unfoldable pub validate_address_action : String → String → Result (Unit {0}) ValidationError
  validate_address_action address action =
      if is_blank address
      then err (missing_parameter "address")
      else if is_blank action
      then err (missing_parameter "action")
      else (do _ ← validate_action action; validate_solana_address address)
