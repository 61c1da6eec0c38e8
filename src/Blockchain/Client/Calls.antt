-- ===== src/Blockchain/Client/Calls.antt =====
-- What the calls of src/blockchain/client.rs answer.
use mathlib.Core.Path.{fun_ext}
use chain_data_service.Base.{
  ℕ, ◌≤◌, ◌≡◌, refl, ap, sym, ◌∙◌, ◌↔◌, String, Bool, true, false, Option, none, some, Result, ok,
  err, arith, ◌||◌, ◌⊎◌, inl, inr,
}
use chain_data_service.Config.{Config}
use chain_data_service.Blockchain.Client.{
  ClientError, network_error, rpc_error, signature_error, pubkey_error, contains, is_network_error,
  classify, SolanaClient, new, Rpc, Backon, rate_limited, settle, parse_optional, max_times,
  get_slot, get_transaction, get_signatures_for_address,
}
use chain_data_service.Blockchain.Client.Retry.{attempts, retry-attempts, attempts-err}

rate_limited-eq : {A : Type 0} (b : Bool) (r : Result A ClientError) → rate_limited b r ≡ r
unfolding rate_limited
rate_limited-eq true r = refl
rate_limited-eq false r = refl

settle-err :
    {A : Type 0} (answer : Result A String) (x : ClientError)
    → settle answer ≡ err x
    → (text : String) × (answer ≡ err text) × (x ≡ classify text)
unfolding settle
settle-err (ok a) x h = absurd (ground arith)
settle-err (err e) x h = (e, refl, ground arith)

-- The errors that count as errors of the network: the text is of a time-out, of a refused
-- connection, or of a connection that was reset.
pub is_network_error-classify :
    (e : String)
    → is_network_error (classify e)
      ≡ (contains e "timed out" || contains e "connection refused" || contains e "reset by peer")
unfolding is_network_error classify
is_network_error-classify e = ground arith

classify-network :
    (e : String)
    → (contains e "timed out" ≡ true) ⊎ (contains e "connection refused" ≡ true)
    → classify e ≡ network_error e
unfolding classify
classify-network e (inl h) = ground (arith, h)
classify-network e (inr h) = ground (arith, h)

classify-rpc :
    (e : String)
    → contains e "timed out" ≡ false
    → contains e "connection refused" ≡ false
    → classify e ≡ rpc_error e
unfolding classify
classify-rpc e h k = ground (arith, h, k)

-- Making the client panics exactly if the configured rate is 0.
pub new-none_iff : (config : Config) → (new config ≡ none) ↔ (config.rpc_rate_limit ≡ some 0)
unfolding new
new-none_iff config = (λ h. ground arith, λ h. ground arith)

module _ (backon : Backon) {P : Type 0} (rpc : Rpc P) (check : ℕ → Bool)
    (client : SolanaClient) where
  open rpc use {Signature, Pubkey, parse_signature, parse_pubkey}

  limited_attempts :
      {A : Type 0} (op : ℕ → Result A ClientError)
      → backon.retry A max_times (λ n. rate_limited (check n) (op n)) ≡ attempts max_times op
  limited_attempts op =
      retry-attempts backon max_times (λ n. rate_limited (check n) (op n))
      ∙ ap (attempts max_times) (fun_ext (λ n. rate_limited-eq (check n) (op n)))

  -- When the slot cannot be read, six attempts were made and all of them failed, and the error is
  -- that of the last, with its text: a network error if the text has "timed out" or "connection
  -- refused" in it, or else an RPC error.
  pub get_slot-err :
      (x : ClientError)
      → get_slot backon rpc check client ≡ err x
      → ((n : ℕ)
          → n ≤ 5
          → (text : String) × (rpc.get_slot_with_commitment client.commitment n ≡ err text))
        × (text : String) × (rpc.get_slot_with_commitment client.commitment 5 ≡ err text)
        × ((contains text "timed out" ≡ true) ⊎ (contains text "connection refused" ≡ true)
            → x ≡ network_error text)
        × (contains text "timed out" ≡ false
            → contains text "connection refused" ≡ false
            → x ≡ rpc_error text)
  unfolding get_slot
  get_slot-err x h =
      let answer = rpc.get_slot_with_commitment client.commitment in
      let (last, failed) =
        attempts-err 5 (λ n. settle (answer n)) x
          (sym (limited_attempts (λ n. settle (answer n))) ∙ h) in
      let (text5, e5, x5) = settle-err (answer 5) x last in
      (
        λ n l. let (e, p) = failed n l in let (text, q, _) = settle-err (answer n) e p in (text, q),
        text5,
        e5,
        (λ h. x5 ∙ classify-network text5 h),
        (λ h k. x5 ∙ classify-rpc text5 h k),
      )

  -- A transaction is asked for only if its signature parses: then the answer is that of one attempt
  -- after another, up to the first that succeeds or to the sixth, whatever the errors were, and the
  -- rate limit does not change it. Otherwise the answer is the error of the signature.
  pub get_transaction-attempts :
      (text : String)
      → (parse_signature text ≡ none
          → get_transaction backon rpc check client text ≡ err (signature_error text))
        × ((s : Signature)
            → parse_signature text ≡ some s
            → get_transaction backon rpc check client text
              ≡ attempts 5 (λ n. settle (rpc.get_transaction_with_config s client.commitment n)))
  unfolding get_transaction
  get_transaction-attempts text = (
    λ e. rw e,
    λ s e.
        rw e
          (limited_attempts (λ n. settle (rpc.get_transaction_with_config s client.commitment n))),
  )

  -- The signatures of an address are asked for only if the address and the cursor parse, and then
  -- in the same way; the first of the two that does not parse is the error.
  pub get_signatures_for_address-attempts :
      (address before : String) (limit : Option ℕ)
      → let answer =
          get_signatures_for_address backon rpc check client address (some before) none limit in
        (parse_pubkey address ≡ none → answer ≡ err (pubkey_error address))
        × ((key : Pubkey)
            → parse_pubkey address ≡ some key
            → parse_signature before ≡ none
            → answer ≡ err (signature_error before))
        × ((key : Pubkey) (s : Signature)
            → parse_pubkey address ≡ some key
            → parse_signature before ≡ some s
            → answer
              ≡ attempts 5 (λ n.
                settle
                  (rpc.get_signatures_with_config key (some s) none limit client.commitment n)))
  unfolding get_signatures_for_address parse_optional
  get_signatures_for_address-attempts address before limit = (
    λ e. rw e,
    λ key e f. rw (e, f, parse_optional),
    λ key s e f.
        rw (e, f, parse_optional)
          (limited_attempts (λ n.
            settle (rpc.get_signatures_with_config key (some s) none limit client.commitment n))),
  )
