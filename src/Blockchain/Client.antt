-- ===== src/Blockchain/Client.antt =====
-- src/blockchain/client.rs. The RPC library is the parameter `Rpc`: the answers of a node to the
-- attempts of one call, an error being its text, and the parsers of keys. `Backon` is the retry
-- library, with what it documents. The rate limiter of `governor` only delays an attempt: `check`
-- says whether it does.
pub mod Retry
pub mod Calls
pub mod Node
use mathlib.Core.Option.{get_or}
use chain_data_service.Base.{
  ℕ, suc, ◌≤◌, ◌<◌, ◌≡◌, ◌⊎◌, String, Bool, true, false, Option, none, some, List, [], ◌∷◌, Result,
  ok, err, map_err, ℤ, codes, str_eq, ◌==◌, ◌&&◌, ◌||◌, if◌then◌else◌,
}
use chain_data_service.Config.{Config}
use chain_data_service.Blockchain.Extract.{EncodedConfirmedTransaction}
use chain_data_service.Blockchain.Services.{SignatureInfo}

pub data ClientError : Type 0 where
  rpc_error : String → ClientError
  signature_error : String → ClientError
  pubkey_error : String → ClientError
  not_found : String → ClientError
  rate_limited_error : ClientError
  network_error : String → ClientError
  max_retries_exceeded : ClientError

unfoldable pub starts_with : List ℕ → List ℕ → Bool
starts_with cs [] = true
starts_with [] (d ∷ ds) = false
starts_with (c ∷ cs) (d ∷ ds) = c == d && starts_with cs ds

unfoldable pub contains_codes : List ℕ → List ℕ → Bool
unfolding starts_with
contains_codes [] ds = starts_with [] ds
contains_codes (c ∷ cs) ds = starts_with (c ∷ cs) ds || contains_codes cs ds

-- `str::contains`
unfoldable pub contains : String → String → Bool
unfolding contains_codes
contains text part = contains_codes (codes text) (codes part)

unfoldable pub is_network_error : ClientError → Bool
is_network_error (rpc_error e) =
    contains e "timed out" || contains e "connection refused" || contains e "reset by peer"
is_network_error (network_error e) = true
is_network_error _ = false

-- How an error of the RPC library is passed on.
unfoldable pub classify : String → ClientError
classify e =
    if contains e "timed out" || contains e "connection refused"
    then network_error e
    else rpc_error e

pub data Commitment : Type 0 where
  processed : Commitment
  confirmed : Commitment
  finalized : Commitment

unfoldable pub commitment_of : String → Commitment
commitment_of level =
    if str_eq level "processed"
    then processed
    else if str_eq level "finalized"
    then finalized
    else confirmed

pub record SolanaClient : Type 0 where
  pub rpc_url : String
  pub timeout : ℕ
  pub commitment : Commitment
  pub requests_per_second : ℕ

-- `NonZeroU32::new(rps).unwrap()` panics at 0: that is `none`.
unfoldable pub new : Config → Option SolanaClient
unfolding commitment_of
new config =
    let rps = get_or config.rpc_rate_limit 5 in
    if rps == 0
    then none
    else some (record {
      rpc_url = config.solana_rpc_url;
      timeout = config.rpc_timeout_secs;
      commitment = commitment_of config.solana_commitment_level;
      requests_per_second = rps;
    })

-- The last argument of each call is the number of the attempt.
pub record Rpc (P : Type 0) : Type 1 where
  pub Signature : Type 0
  pub Pubkey : Type 0
  pub parse_signature : String → Option Signature
  pub parse_pubkey : String → Option Pubkey
  pub get_slot_with_commitment : Commitment → ℕ → Result ℕ String
  pub get_block_time : (slot : ℕ) → ℕ → Result ℤ String
  pub get_transaction_with_config :
      Signature → Commitment → ℕ → Result (EncodedConfirmedTransaction P) String
  pub get_signatures_with_config :
      Pubkey
      → (before until : Option Signature) → (limit : Option ℕ) → Commitment
      → ℕ
      → Result (List SignatureInfo) String
  pub get_account_with_config : Pubkey → Commitment → ℕ → Result (Unit {0}) String

-- `operation.retry(policy)` with at most `times` retries: the outcome of an attempt, all of those
-- before it having failed, which succeeded or is the last.
pub record Backon : Type 1 where
  pub retry : (A : Type 0) → (times : ℕ) → (ℕ → Result A ClientError) → Result A ClientError
  pub retry-runs :
      (A : Type 0) (times : ℕ) (op : ℕ → Result A ClientError)
      → (k : ℕ) × (k ≤ times)
        × (retry A times op ≡ op k)
        × ((j : ℕ) → j < k → (e : ClientError) × (op j ≡ err e))
        × (((a : A) × (op k ≡ ok a)) ⊎ (k ≡ times))

-- An attempt that is over the limit is made after a wait.
unfoldable pub rate_limited : {A : Type 0} → Bool → Result A ClientError → Result A ClientError
rate_limited true outcome = outcome
rate_limited false outcome = outcome

-- What each call makes of an answer.
unfoldable pub settle : {A : Type 0} → Result A String → Result A ClientError
unfolding classify
settle answer = map_err classify answer

unfoldable pub settle_block_time : Result ℤ String → Result (Option ℤ) ClientError
unfolding classify
settle_block_time (ok time) = ok (some time)
settle_block_time (err e) =
    if contains e "not available for slot" then ok none else err (classify e)

unfoldable pub settle_account : Result (Unit {0}) String → Result Bool ClientError
unfolding classify
settle_account (ok account) = ok true
settle_account (err e) = if contains e "account not found" then ok false else err (classify e)

-- The parse of an optional signature, which an error ends.
unfoldable pub parse_optional :
    {S : Type 0} → (String → Option S) → Option String → Result (Option S) ClientError
parse_optional parse none = ok none
parse_optional parse (some sig) = elim (parse sig) [
  | none ↦ err (signature_error sig)
  | some s ↦ ok (some s)
]

-- `with_max_times(5)`
abbrev pub max_times : ℕ
max_times = 5

module _ (backon : Backon) {P : Type 0} (rpc : Rpc P) (check : ℕ → Bool)
    (client : SolanaClient) where
  open backon use {retry}
  open rpc use {Signature, Pubkey, parse_signature, parse_pubkey}

  infixl 5 ◌>>=◌
  abbrev ◌>>=◌ :
      {A B : Type 0} → Result A ClientError → (A → Result B ClientError) → Result B ClientError
  ok a >>= f = f a
  err e >>= f = err e

  abbrev parsed : {A : Type 0} → Option A → ClientError → Result A ClientError
  parsed none e = err e
  parsed (some a) e = ok a

  unfoldable pub get_slot : Result ℕ ClientError
  unfolding rate_limited settle
  get_slot =
      retry ℕ max_times
        λ n. rate_limited (check n) (settle (rpc.get_slot_with_commitment client.commitment n))

  unfoldable pub get_block_time : ℕ → Result (Option ℤ) ClientError
  unfolding rate_limited settle_block_time
  get_block_time slot =
      retry (Option ℤ) max_times
        λ n. rate_limited (check n) (settle_block_time (rpc.get_block_time slot n))

  unfoldable pub get_transaction : String → Result (EncodedConfirmedTransaction P) ClientError
  unfolding rate_limited settle
  get_transaction text = do
    signature ← parsed (parse_signature text) (signature_error text)
    retry (EncodedConfirmedTransaction P) max_times λ n.
        rate_limited (check n)
          (settle (rpc.get_transaction_with_config signature client.commitment n))

  unfoldable pub get_signatures_for_address :
      String → (before until : Option String) → Option ℕ → Result (List SignatureInfo) ClientError
  unfolding rate_limited settle parse_optional
  get_signatures_for_address address before until limit = do
    pubkey ← parsed (parse_pubkey address) (pubkey_error address)
    before_sig ← parse_optional parse_signature before
    until_sig ← parse_optional parse_signature until
    retry (List SignatureInfo) max_times λ n. rate_limited (check n) (
        settle
          (rpc.get_signatures_with_config pubkey before_sig until_sig limit client.commitment n))

  unfoldable pub address_exists : String → Result Bool ClientError
  unfolding rate_limited settle_account
  address_exists address = do
    pubkey ← parsed (parse_pubkey address) (pubkey_error address)
    retry Bool max_times λ n.
        rate_limited (check n)
          (settle_account (rpc.get_account_with_config pubkey client.commitment n))
