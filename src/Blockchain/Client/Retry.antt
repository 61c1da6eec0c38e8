-- ===== src/Blockchain/Client/Retry.antt =====
-- The retries of src/blockchain/client.rs against a loop that makes one attempt after another.
use chain_data_service.Base.{
  ℕ, zero, suc, ◌≤◌, ◌<◌, ◌≡◌, refl, ◌⊎◌, inl, inr, Result, ok, err, arith, Result-cases,
}
use chain_data_service.Blockchain.Client.{ClientError, Backon}

-- At most `times` attempts after the first, up to one that succeeds.
unfoldable pub attempts : {A : Type 0} → ℕ → (ℕ → Result A ClientError) → Result A ClientError
attempts zero op = op 0
attempts (suc times) op = elim (op 0) [ ok a ↦ ok a | err e ↦ attempts times (λ n. op (suc n)) ]

last_before :
    {A : Type 0} (r : Result A ClientError) (k times : ℕ)
    → ((a : A) × (r ≡ ok a)) ⊎ (suc k ≡ suc times)
    → ((a : A) × (r ≡ ok a)) ⊎ (k ≡ times)
last_before r k times (inl success) = inl success
last_before r k times (inr e) = inr (omega arith)

-- The loop ends with the first success, and with the last attempt if there is none.
attempts-eq :
    {A : Type 0} (times : ℕ) (op : ℕ → Result A ClientError) (k : ℕ)
    → k ≤ times
    → ((j : ℕ) → j < k → (e : ClientError) × (op j ≡ err e))
    → ((a : A) × (op k ≡ ok a)) ⊎ (k ≡ times)
    → attempts times op ≡ op k
unfolding attempts
attempts-eq zero op zero h failed last = refl
attempts-eq zero op (suc k) h failed last = absurd (omega arith)
attempts-eq (suc times) op zero h failed (inl (a, e)) = ground (arith, e)
attempts-eq (suc times) op zero h failed (inr e) = absurd (omega arith)
attempts-eq (suc times) op (suc k) h failed last =
    let (x, e) = failed 0 (omega arith) in
    let failed_after = λ (j : ℕ) (l : j < k). failed (suc j) (omega arith) in
    let rest =
      attempts-eq times (λ n. op (suc n)) k (omega arith) failed_after
        (last_before (op (suc k)) k times last) in
    ground (arith, e, rest)

pub retry-attempts :
    (backon : Backon) {A : Type 0} (times : ℕ) (op : ℕ → Result A ClientError)
    → backon.retry A times op ≡ attempts times op
retry-attempts backon {A} times op =
    let (k, h, e, failed, last) = backon.retry-runs A times op in
    ground (arith, e, attempts-eq times op k h failed last)

failures :
    {A : Type 0} (times : ℕ) (op : ℕ → Result A ClientError)
    → (e : ClientError) × (op 0 ≡ err e)
    → ((j : ℕ) → j ≤ times → (e : ClientError) × (op (suc j) ≡ err e))
    → (j : ℕ) → j ≤ suc times
    → (e : ClientError) × (op j ≡ err e)
failures times op first later zero l = first
failures times op first later (suc j) l = later j (omega arith)

-- A failure of the loop is the failure of its last attempt, after all others have failed.
pub attempts-err :
    {A : Type 0} (times : ℕ) (op : ℕ → Result A ClientError) (x : ClientError)
    → attempts times op ≡ err x
    → (op times ≡ err x) × ((j : ℕ) → j ≤ times → (e : ClientError) × (op j ≡ err e))
unfolding attempts
attempts-err zero op x h = (h, λ j l. let z : j ≡ 0 = omega arith in (x, rw z h))
attempts-err (suc times) op x h = elim (Result-cases (op 0)) [
  | inr (a, e) ↦ absurd (ground (arith, e))
  | inl (y, e) ↦
      let (last, failed) = attempts-err times (λ n. op (suc n)) x (ground (arith, e)) in
      (last, failures times op (y, e) failed)
]
