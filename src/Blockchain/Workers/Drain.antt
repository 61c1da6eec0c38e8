-- ===== src/Blockchain/Workers/Drain.antt =====
-- The end of the workers of src/blockchain/worker_pool.rs, once every sender is dropped.
use chain_data_service.Base.{ℕ, suc, ◌+◌, ◌*◌, ◌≤◌, List, [], ◌∷◌, ◌++◌, ◌≡◌, ap, length, arith}
use chain_data_service.Blockchain.Workers.{
  Worker, waiting, busy, stopped, Pool, Step, send, get_sender, drop_sender, receive, finish, stop,
  Steps, here, next,
}

module _ {B : Type 0} where
  weight : Worker B → ℕ
  weight waiting = 1
  weight (busy b) = 2
  weight stopped = 0

  weights : List (Worker B) → ℕ
  weights [] = 0
  weights (w ∷ ws) = weight w + weights ws

  -- The work that is left.
  pub measure : Pool B → ℕ
  measure p = 2 * length p.queue + weights p.workers

  pub count_steps : {p q : Pool B} → Steps p q → ℕ
  count_steps here = 0
  count_steps (next rest step) = suc (count_steps rest)

  weights-append :
      (before after : List (Worker B)) (w : Worker B)
      → weights (before ++ w ∷ after) ≡ weights before + weight w + weights after
  unfolding weights
  weights-append [] after w = omega arith
  weights-append (v ∷ before) after w = omega (arith, weights-append before after w)

  Step-measure :
      {p q : Pool B} → Step p q → p.senders ≡ 0 → (q.senders ≡ 0) × (suc (measure q) ≤ measure p)
  unfolding measure weight
  Step-measure (send b open_ alive room) z = absurd (omega arith)
  Step-measure (get_sender open_) z = absurd (omega arith)
  Step-measure (drop_sender n e) z = absurd (omega arith)
  Step-measure (receive before after b rest w e) z = (
    z,
    omega (
      arith,
      ap length e,
      ap weights w,
      weights-append before after waiting,
      weights-append before after (busy b),
    ),
  )
  Step-measure (finish before after b w) z = (
    z,
    omega (
      arith,
      ap weights w,
      weights-append before after waiting,
      weights-append before after (busy b),
    ),
  )
  Step-measure (stop before after w e s) z = (
    z,
    omega (
      arith,
      ap weights w,
      weights-append before after waiting,
      weights-append before after stopped,
    ),
  )

  drain :
      {p q : Pool B} (steps : Steps p q)
      → p.senders ≡ 0
      → (q.senders ≡ 0) × (count_steps steps + measure q ≤ measure p)
  unfolding count_steps
  drain here z = (z, omega arith)
  drain (next rest step) z =
      let (z', h) = drain rest z in let (z'', k) = Step-measure step z' in (z'', omega arith)

  -- Once every sender is dropped, the tasks can only take a bounded number of steps: two for each
  -- batch in the channel, two for each worker with a batch, and one for each that waits.
  pub drain-bound :
      (p q : Pool B) (steps : Steps p q) → p.senders ≡ 0 → count_steps steps ≤ measure p
  drain-bound p q steps z = omega (arith, drain steps z)
