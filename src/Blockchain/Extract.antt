-- ===== src/Blockchain/Extract.antt =====
-- src/blockchain/models.rs. The data of `solana_transaction_status` has the constructors and fields
-- that the code names. Of `serde_json` the code uses the operations of `Json`; `parse_f64` is
-- `str::parse`, and `to_sol` divides a number of lamports by 1_000_000_000.0. The identities of the
-- two programs are parameters.
pub mod Laws
use chain_data_service.Base.{
  ℕ, suc, ◌%◌, ◌<◌, String, Bool, false, true, Option, none, some, List, [], ◌∷◌, ℤ, pos, ◌-ℤ◌,
  to_i64, wrap_i64, ltb, ltb_ℤ, ◌==◌, ◌&&◌, ◌||◌, not, if◌then◌else◌, str_eq, length, get_elem?,
}
use mathlib.Core.Option
use mathlib.Core.Option.{get_or}
use chain_data_service.Models
use chain_data_service.Models.{Transaction}

pub record Json : Type 1 where
  pub Value : Type 0
  pub Map : Type 0
  -- `UiParsedInstruction`
  pub Parsed : Type 0
  pub null : Value
  -- `serde_json::to_value`, an error being `none`.
  pub to_value : Parsed → Option Value
  -- The map of a `Value::Object`.
  pub as_object : Value → Option Map
  pub map_get : Map → String → Option Value
  pub get : Value → String → Option Value
  pub as_str : Value → Option String
  pub as_u64 : Value → Option ℕ

pub record ParsedAccount : Type 0 where
  pub pubkey : String

pub data UiInstruction (P : Type 0) : Type 0 where
  parsed : P → UiInstruction P
  compiled : (program_id_index : ℕ) → UiInstruction P

pub record UiParsedMessage (P : Type 0) : Type 0 where
  pub account_keys : List ParsedAccount
  pub instructions : List (UiInstruction P)

pub data UiMessage (P : Type 0) : Type 0 where
  parsed_message : UiParsedMessage P → UiMessage P
  raw : UiMessage P

-- `Json`, and the encodings that are not supported.
pub data EncodedTransaction (P : Type 0) : Type 0 where
  json_transaction : (message : UiMessage P) → EncodedTransaction P
  other_encoding : EncodedTransaction P

pub record UiTransactionStatusMeta : Type 0 where
  pub has_err : Bool
  pub pre_balances : List ℕ
  pub post_balances : List ℕ

-- `slot` and the balances are `u64`, `block_time` an `i64`.
pub record EncodedConfirmedTransaction (P : Type 0) : Type 0 where
  pub slot : ℕ
  pub block_time : Option ℤ
  pub transaction : EncodedTransaction P
  pub meta : Option UiTransactionStatusMeta

-- The variables of the loop over the balances.
pub record Changes : Type 0 where
  pub largest_decrease : ℤ
  pub largest_increase : ℤ
  pub src_idx : ℕ
  pub dst_idx : ℕ

abbrev pub no_changes : Changes
no_changes = record { largest_decrease = pos 0; largest_increase = pos 0; src_idx = 0; dst_idx = 0 }

-- `*post as i64 - *pre as i64`
unfoldable pub change_of : ℕ → ℕ → ℤ
unfolding to_i64 ◌-ℤ◌
change_of pre post = wrap_i64 (to_i64 post -ℤ to_i64 pre)

unfoldable pub opposite : ℤ → ℤ
unfolding ◌-ℤ◌
opposite z = wrap_i64 (pos 0 -ℤ z)

-- One round of the loop.
unfoldable pub note_change : ℕ → ℤ → Changes → Changes
unfolding opposite
note_change i change c =
    if ltb_ℤ change (opposite c.largest_decrease)
    then record c { largest_decrease = opposite change; src_idx = i }
    else if ltb_ℤ c.largest_increase change
    then record c { largest_increase = change; dst_idx = i }
    else c

-- The loop over the zipped balances from index `i` on.
unfoldable pub scan_balances : ℕ → List ℕ → List ℕ → Changes → Changes
unfolding note_change change_of
scan_balances i (pre ∷ pres) (post ∷ posts) c =
    scan_balances (suc i) pres posts (note_change i (change_of pre post) c)
scan_balances i _ _ c = c

abbrev pub key_at : List ParsedAccount → ℕ → Option String
key_at keys i = Option.map (λ (k : ParsedAccount). k.pubkey) (get_elem? keys i)

abbrev pub is_empty {ℓ} : {A : Type ℓ} → List A → Bool
is_empty [] = true
is_empty (x ∷ xs) = false

abbrev pub is_none {ℓ} : {A : Type ℓ} → Option A → Bool
is_none none = true
is_none (some x) = false

-- The destination, the amount and the program of a transfer.
pub record Details (F : Type 0) : Type 0 where
  pub destination : Option String
  pub amount : Option F
  pub program_id : Option String

abbrev pub no_details : {F : Type 0} → Details F
no_details = record { destination = none; amount = none; program_id = none }

-- `compiled.program_id_index < message.account_keys.len() as u8`
unfoldable pub compiled_details : {F : Type 0} → List ParsedAccount → ℕ → Details F
compiled_details keys program_id_index =
    if ltb program_id_index (length keys % 256)
    then record { destination = none; amount = none; program_id = key_at keys program_id_index }
    else no_details

unfoldable pub parsed_of : {P : Type 0} → EncodedTransaction P → Option (UiParsedMessage P)
parsed_of other_encoding = none
parsed_of (json_transaction raw) = none
parsed_of (json_transaction (parsed_message message)) = some message

module _ (json : Json) {F : Type 0} (to_sol : ℤ → F) (parse_f64 : String → Option F)
    (system_program_id token_program_id : String) where
  open json use {Value, Map, Parsed, null, to_value, as_object, map_get, get, as_str, as_u64}

  infixl 5 ◌>>=◌
  abbrev ◌>>=◌ : {A B : Type 0} → Option A → (A → Option B) → Option B
  none >>= f = none
  some a >>= f = f a

  -- The `info` of a parsed instruction whose `type` is one of two texts.
  unfoldable pub info_of : Map → String → String → Option Value
  info_of obj typ1 typ2 = do
    parsed_value ← map_get obj "parsed"
    typ ← get parsed_value "type" >>= as_str
    if str_eq typ typ1 || str_eq typ typ2 then get parsed_value "info" else none

  unfoldable pub system_amount : Value → Option F
  system_amount info = do lamports ← get info "lamports" >>= as_u64; some (to_sol (pos lamports))

  unfoldable pub token_amount : Value → Option F
  token_amount info = get info "amount" >>= as_str >>= parse_f64

  -- A transfer found by `amount_of`, or none.
  unfoldable pub transfer : String → Option Value → (Value → Option F) → Details F
  transfer id none amount_of = record { destination = none; amount = none; program_id = some id }
  transfer id (some info) amount_of = record {
    destination = get info "destination" >>= as_str;
    amount = amount_of info;
    program_id = some id;
  }

  unfoldable pub parsed_details : Map → Details F
  unfolding info_of system_amount token_amount transfer
  parsed_details obj = elim (map_get obj "programId" >>= as_str) [
    | none ↦ no_details
    | some id ↦
        if str_eq id system_program_id
        then transfer id (info_of obj "transfer" "transferWithSeed") system_amount
        else if str_eq id token_program_id
        then transfer id (info_of obj "transfer" "transferChecked") token_amount
        else record { destination = none; amount = none; program_id = some id }
  ]

  unfoldable pub first_instruction : List ParsedAccount → List (UiInstruction Parsed) → Details F
  unfolding parsed_details compiled_details
  first_instruction keys [] = no_details
  first_instruction keys (parsed p ∷ rest) = elim (as_object (get_or (to_value p) null)) [
    | none ↦ no_details
    | some obj ↦ parsed_details obj
  ]
  first_instruction keys (compiled index ∷ rest) = compiled_details keys index

  -- The guess from the balances, which leaves the program as it was.
  unfoldable pub infer_from : List ParsedAccount → Changes → Details F → Details F
  infer_from keys c d =
      if ltb_ℤ (pos 0) c.largest_decrease
        && ltb_ℤ (pos 0) c.largest_increase
        && not (c.src_idx == c.dst_idx)
        && ltb c.dst_idx (length keys)
      then record d {
        destination = key_at keys c.dst_idx;
        amount = some (to_sol c.largest_increase);
      }
      else d

  unfoldable pub extract_transfer_details :
      UiParsedMessage Parsed → UiTransactionStatusMeta → Details F
  unfolding first_instruction infer_from scan_balances
  extract_transfer_details message meta =
      let d = first_instruction message.account_keys message.instructions in
      if is_none d.destination
        && not (is_empty meta.post_balances)
        && not (is_empty meta.pre_balances)
      then infer_from message.account_keys
          (scan_balances 0 meta.pre_balances meta.post_balances no_changes) d
      else d

  -- The transaction for a message whose first account is `source`.
  unfoldable pub build :
      String
      → EncodedConfirmedTransaction Parsed
      → UiTransactionStatusMeta
      → UiParsedMessage Parsed
      → Option (Transaction F)
  unfolding extract_transfer_details Models.new
  build signature tx_data meta message = elim message.account_keys [
    | [] ↦ none
    | key ∷ keys ↦
        let d = extract_transfer_details message meta in
        some (
          Models.new signature (get_or tx_data.block_time (pos 0)) (to_i64 tx_data.slot) key.pubkey
            d.destination d.amount d.program_id (not meta.has_err))
  ]

  unfoldable pub extract_transaction :
      String → EncodedConfirmedTransaction Parsed → Option (Transaction F)
  unfolding build parsed_of
  extract_transaction signature tx_data = elim tx_data.meta [
    | none ↦ none
    | some meta ↦ parsed_of tx_data.transaction >>= build signature tx_data meta
  ]
