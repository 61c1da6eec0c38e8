-- ===== src/Blockchain/Services.antt =====
-- What the blockchain side of the program calls outside the repository: the node behind
-- src/blockchain/client.rs, the JSON library and the numbers. The n-th request of a call is
-- answered by `get_transaction n` and `get_signatures n`, where `none` is an error: every caller
-- logs it and goes on.
pub mod Laws
use chain_data_service.Base.{
  ℕ, suc, ◌+◌, String, Option, none, some, List, [], ◌∷◌, ℤ, length, take_rows, drop_rows,
}
use chain_data_service.Models.{Transaction}
use chain_data_service.Blockchain.Extract.{Json, EncodedConfirmedTransaction, extract_transaction}

-- `RpcConfirmedTransactionStatusWithSignature`, of which the code reads three fields.
pub record SignatureInfo : Type 0 where
  pub signature : String
  pub slot : ℕ
  pub block_time : Option ℤ

pub record Services (F : Type 0) : Type 1 where
  pub json : Json
  pub to_sol : ℤ → F
  pub parse_f64 : String → Option F
  pub system_program_id : String
  pub token_program_id : String
  pub get_transaction : ℕ → String → Option (EncodedConfirmedTransaction json.Parsed)
  -- The request's number, the address, the cursor `before` and the limit.
  pub get_signatures : ℕ → String → Option String → ℕ → Option (List SignatureInfo)

module _ {ℓ} {A : Type ℓ} where
  unfoldable pub chunks_with : ℕ → ℕ → List A → List (List A)
  unfolding take_rows drop_rows
  chunks_with ℕ.zero size xs = []
  chunks_with (suc fuel) size [] = []
  chunks_with (suc fuel) size (x ∷ xs) =
      take_rows size (x ∷ xs) ∷ chunks_with fuel size (drop_rows size (x ∷ xs))

  -- `slice::chunks`, for a size that is not 0: the length is fuel enough.
  unfoldable pub chunks : ℕ → List A → List (List A)
  unfolding chunks_with
  chunks size xs = chunks_with (length xs) size xs

module _ {F : Type 0} (services : Services F) where
  open services use {json, to_sol, parse_f64, system_program_id, token_program_id, get_transaction}

  -- The transaction of a signature, if the node knows it and it can be extracted.
  unfoldable pub fetch : ℕ → String → Option (Transaction F)
  unfolding extract_transaction
  fetch n signature = elim (get_transaction n signature) [
    | none ↦ none
    | some tx ↦
        extract_transaction json to_sol parse_f64 system_program_id token_program_id signature tx
  ]

  -- The transactions of signatures, from the n-th request on.
  unfoldable pub fetch_all : ℕ → List String → List (Transaction F)
  unfolding fetch
  fetch_all n [] = []
  fetch_all n (signature ∷ signatures) = elim (fetch n signature) [
    | none ↦ fetch_all (suc n) signatures
    | some t ↦ t ∷ fetch_all (suc n) signatures
  ]
