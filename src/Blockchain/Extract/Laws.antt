-- ===== src/Blockchain/Extract/Laws.antt =====
-- When `extract_transaction` of src/blockchain/models.rs yields a transaction, and that no index of
-- an account is out of range.
use mathlib.Core.Option.{get_or}
use chain_data_service.Base.{
  ℕ, suc, ◌%◌, ◌<◌, String, not, Option, none, some, List, [], ◌∷◌, ◌≡◌, ◌≢◌, refl, arith, ℤ, pos,
  to_i64, length, inl, inr, Option-cases,
}
use chain_data_service.Models
use chain_data_service.Models.{Transaction}
use chain_data_service.Blockchain.Extract.{
  Json, ParsedAccount, UiParsedMessage, parsed_message, EncodedTransaction, json_transaction,
  UiTransactionStatusMeta, EncodedConfirmedTransaction, key_at, compiled_details, build, parsed_of,
  extract_transaction,
}

key_at-some :
    (keys : List ParsedAccount) (i : ℕ) → i < length keys → (k : String) × (key_at keys i ≡ some k)
key_at-some [] i h = elim h [ ]
key_at-some (x ∷ keys) ℕ.zero h = (x.pubkey, refl)
key_at-some (x ∷ keys) (suc i) h = key_at-some keys i (omega arith)

-- When the index of a compiled instruction is below the number of keys taken as a byte, it is in
-- range: the program is found.
pub compiled_details_in_range :
    (F : Type 0) (keys : List ParsedAccount) (index : ℕ)
    → index < length keys % 256
    → (k : String) × ((compiled_details {F = F} keys index).program_id ≡ some k)
unfolding compiled_details
compiled_details_in_range F keys index h =
    let (k, e) = key_at-some keys index (grind arith) in (k, ground (arith, e))

parsed_of-some :
    {P : Type 0} (enc : EncodedTransaction P) (message : UiParsedMessage P)
    → parsed_of enc ≡ some message
    → enc ≡ json_transaction (parsed_message message)
unfolding parsed_of
parsed_of-some enc message h = ground arith

module _ (json : Json) {F : Type 0} (to_sol : ℤ → F) (parse_f64 : String → Option F)
    (system_program_id token_program_id : String) where
  open json use {Parsed}

  abbrev extract : String → EncodedConfirmedTransaction Parsed → Option (Transaction F)
  extract = extract_transaction json to_sol parse_f64 system_program_id token_program_id

  -- When a transaction is extracted, the data is JSON with a parsed message that has an account,
  -- and has metadata; the transaction carries the signature, the slot, the block time or 0, the
  -- first account as its source, and success if the metadata has no error.
  pub extract_transaction-some :
      (signature : String) (tx_data : EncodedConfirmedTransaction Parsed) (t : Transaction F)
      → extract signature tx_data ≡ some t
      → (meta : UiTransactionStatusMeta) × (message : UiParsedMessage Parsed) × (tx_data.meta
          ≡ some meta)
        × (tx_data.transaction ≡ json_transaction (parsed_message message))
        × (key_at message.account_keys 0 ≡ some t.source_address)
        × (t.signature ≡ signature)
        × (t.slot ≡ to_i64 tx_data.slot)
        × (t.block_time ≡ get_or tx_data.block_time (pos 0))
        × (t.success ≡ not meta.has_err)
  unfolding extract_transaction parsed_of build Models.new
  extract_transaction-some signature tx_data t h = elim (Option-cases tx_data.meta) [
    | inl e ↦ absurd (ground (arith, e))
    | inr (meta, e) ↦ elim (Option-cases (parsed_of tx_data.transaction)) [
      | inl f ↦ absurd (ground (arith, e, f))
      | inr (message, f) ↦ (
        meta,
        message,
        e,
        parsed_of-some _ message f,
        ground (arith, e, f),
        ground (arith, e, f),
        ground (arith, e, f),
        ground (arith, e, f),
        ground (arith, e, f),
      )
    ]
  ]

  -- A transaction is extracted whenever there is metadata, the data is JSON with a parsed message,
  -- and the message has an account.
  pub extract_transaction-total :
      (signature : String) (tx_data : EncodedConfirmedTransaction Parsed)
      (meta : UiTransactionStatusMeta) (message : UiParsedMessage Parsed)
      → tx_data.meta ≡ some meta
      → tx_data.transaction ≡ json_transaction (parsed_message message)
      → message.account_keys ≢ []
      → extract signature tx_data ≢ none
  unfolding extract_transaction parsed_of build
  extract_transaction-total signature tx_data meta message p q r = ground arith
