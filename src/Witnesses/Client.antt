-- ===== src/Witnesses/Client.antt =====
-- The theorems on src/blockchain/client.rs, at a node that answers one call and fails the others.
use chain_data_service.Base.{
  ℕ, zero, suc, ◌≤◌, ◌<◌, String, true, false, none, some, [], ◌≡◌, ◌⊎◌, inl, inr, refl, Result, ok,
  err, arith, Result-cases,
}
use chain_data_service.Blockchain.Extract.{EncodedConfirmedTransaction}
use chain_data_service.Blockchain.Client.{
  ClientError, signature_error, classify, contains, network_error, rpc_error, confirmed,
  SolanaClient, Rpc, Backon, settle, get_slot, get_transaction,
}
use chain_data_service.Blockchain.Client.Retry.{attempts}
use chain_data_service.Blockchain.Client.Calls.{get_slot-err, get_transaction-attempts}
use chain_data_service.Fixtures.{tx_data}

-- What the loop of attempts does is what the retry library documents.
attempts-runs :
    (A : Type 0) (times : ℕ) (op : ℕ → Result A ClientError)
    → (k : ℕ) × (k ≤ times)
      × (attempts times op ≡ op k)
      × ((j : ℕ) → j < k → (e : ClientError) × (op j ≡ err e))
      × (((a : A) × (op k ≡ ok a)) ⊎ (k ≡ times))
unfolding attempts
attempts-runs A zero op = (0, omega arith, refl, (λ j l. absurd (omega arith)), inr refl)
attempts-runs A (suc times) op = elim (Result-cases (op 0)) [
  | inr (a, e) ↦ (0, omega arith, ground (arith, e), (λ j l. absurd (omega arith)), inl (a, e))
  | inl (x, e) ↦
      let (k, h, run, failed, last) = attempts-runs A times (λ n. op (suc n)) in
      (suc k, omega arith, ground (arith, e, run), failed_from (x, e) failed, shifted last)
]
  where
    failed_from :
        {k : ℕ}
        → (e : ClientError) × (op 0 ≡ err e)
        → ((j : ℕ) → j < k → (e : ClientError) × (op (suc j) ≡ err e))
        → (j : ℕ) → j < suc k
        → (e : ClientError) × (op j ≡ err e)
    failed_from first later zero l = first
    failed_from first later (suc j) l = later j (omega arith)

    shifted :
        {k : ℕ}
        → ((a : A) × (op (suc k) ≡ ok a)) ⊎ (k ≡ times)
        → ((a : A) × (op (suc k) ≡ ok a)) ⊎ (suc k ≡ suc times)
    shifted (inl s) = inl s
    shifted (inr e) = inr (omega arith)

backon : Backon
unfolding attempts
backon = record { retry = λ A times op. attempts times op; retry-runs = attempts-runs }

unfoldable second_succeeds : ℕ → Result (EncodedConfirmedTransaction (Unit {0})) String
second_succeeds zero = err "timed out"
second_succeeds (suc n) = ok tx_data

abbrev rpc : Rpc (Unit {0})
rpc = record {
  Signature = String;
  Pubkey = String;
  parse_signature = λ s. some s;
  parse_pubkey = λ s. some s;
  get_slot_with_commitment = λ c n. err "connection refused";
  get_block_time = λ s n. err "no time";
  get_transaction_with_config = λ s c n. second_succeeds n;
  get_signatures_with_config = λ key b u l c n. ok [];
  get_account_with_config = λ key c n. ok tt;
}

abbrev client : SolanaClient
client = record {
  rpc_url = "https://node";
  timeout = 30;
  commitment = confirmed;
  requests_per_second = 5;
}

get_transaction-attempts_example :
    (rpc.parse_signature "s1" ≡ none
      → get_transaction backon rpc (λ n. false) client "s1" ≡ err (signature_error "s1"))
    × ((s : String)
        → rpc.parse_signature "s1" ≡ some s
        → get_transaction backon rpc (λ n. false) client "s1"
          ≡ attempts 5 (λ n. settle (second_succeeds n)))
get_transaction-attempts_example = get_transaction-attempts backon rpc (λ n. false) client "s1"

get_slot_fails : get_slot backon rpc (λ n. true) client ≡ err (classify "connection refused")
unfolding backon get_slot attempts
get_slot_fails = refl

get_slot-err_example :
    ((n : ℕ) → n ≤ 5 → (text : String) × (rpc.get_slot_with_commitment confirmed n ≡ err text))
    × (text : String) × (rpc.get_slot_with_commitment confirmed 5 ≡ err text)
    × ((contains text "timed out" ≡ true) ⊎ (contains text "connection refused" ≡ true)
        → classify "connection refused" ≡ network_error text)
    × (contains text "timed out" ≡ false
        → contains text "connection refused" ≡ false
        → classify "connection refused" ≡ rpc_error text)
get_slot-err_example =
    get_slot-err backon rpc (λ n. true) client (classify "connection refused") get_slot_fails
