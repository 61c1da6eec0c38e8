-- ===== src/Blockchain/Workers/Live.antt =====
-- That the workers of src/blockchain/worker_pool.rs can go on until the channel is drained.
use mathlib.Core.List.{Perm}
use chain_data_service.Base.{
  ℕ, zero, suc, List, [], ◌∷◌, ◌++◌, ◌≡◌, ◌≢◌, ◌⊎◌, inl, inr, refl, ap, sym, subst, ◌∙◌, append-nil,
  arith, All,
}
use chain_data_service.Blockchain.Workers.{
  Worker, waiting, busy, stopped, Pool, spawn, new, Step, send, get_sender, drop_sender, receive,
  finish, stop, Steps, here, next, sent,
}
use chain_data_service.Blockchain.Workers.Order.{processing, Steps-new}

module _ {B : Type 0} where
  -- A worker stops only when no batch is left and none can come.
  IsLive : Pool B → Type 0
  IsLive p =
      (p.workers ≢ []) × (All (λ w. w ≢ stopped) p.workers ⊎ ((p.queue ≡ []) × (p.senders ≡ 0)))

  not_nil : (before after : List (Worker B)) (w : Worker B) → before ++ w ∷ after ≢ []
  not_nil [] after w e = cc
  not_nil (v ∷ before) after w e = cc

  All-replace :
      (before after : List (Worker B)) (w v : Worker B)
      → v ≢ stopped
      → All (λ u. u ≢ stopped) (before ++ w ∷ after)
      → All (λ u. u ≢ stopped) (before ++ v ∷ after)
  All-replace [] after w v n (h, k) = (n, k)
  All-replace (u ∷ before) after w v n (h, k) = (h, All-replace before after w v n k)

  Step-IsLive : {p q : Pool B} → Step p q → IsLive p → IsLive q
  unfolding IsLive
  Step-IsLive (send b open_ alive room) (n, inl h) = (n, inl h)
  Step-IsLive (send b open_ alive room) (n, inr (q, z)) = absurd (omega arith)
  Step-IsLive (get_sender open_) (n, inl h) = (n, inl h)
  Step-IsLive (get_sender open_) (n, inr (q, z)) = absurd (omega arith)
  Step-IsLive (drop_sender m e) (n, inl h) = (n, inl h)
  Step-IsLive (drop_sender m e) (n, inr (q, z)) = absurd (omega arith)
  Step-IsLive (receive before after b rest w e) (n, inl h) = (
    not_nil before after (busy b),
    inl (All-replace before after waiting (busy b) (λ e. cc) (subst (All (λ u. u ≢ stopped)) w h)),
  )
  Step-IsLive (receive before after b rest w e) (n, inr (q, z)) = absurd (cc)
  Step-IsLive (finish before after b w) (n, inl h) = (
    not_nil before after waiting,
    inl (All-replace before after (busy b) waiting (λ e. cc) (subst (All (λ u. u ≢ stopped)) w h)),
  )
  Step-IsLive (finish before after b w) (n, inr h) = (not_nil before after waiting, inr h)
  Step-IsLive (stop before after w e s) (n, h) = (not_nil before after stopped, inr (e, s))

  Steps-IsLive : {p q : Pool B} → Steps p q → IsLive p → IsLive q
  Steps-IsLive here v = v
  Steps-IsLive (next rest step) v = Step-IsLive step (Steps-IsLive rest v)

  none_stopped : (n : ℕ) (ws : List (Worker B)) → ws ≡ spawn n → All (λ w. w ≢ stopped) ws
  unfolding spawn
  none_stopped zero ws e = rw e tt
  none_stopped (suc n) ws e = rw e ((λ e. cc), none_stopped n (spawn n) refl)

  new-IsLive : (n : ℕ) (p : Pool B) → p ≡ new (suc n) → IsLive p
  unfolding IsLive new spawn
  new-IsLive n p e = rw e ((λ e. cc), inl (none_stopped (suc n) (spawn (suc n)) refl))

  -- A worker that has not stopped, if there is one.
  Running : List (Worker B) → Type 0
  Running ws =
      (before : List (Worker B)) × (after : List (Worker B)) × ((ws ≡ before ++ waiting ∷ after)
        ⊎ ((b : B) × (ws ≡ before ++ busy b ∷ after)))

  Running-cons : (w : Worker B) (ws : List (Worker B)) → Running ws → Running (w ∷ ws)
  unfolding Running
  Running-cons w ws (before, after, inl e) = (w ∷ before, after, inl (ap (◌∷◌ w) e))
  Running-cons w ws (before, after, inr (b, e)) = (w ∷ before, after, inr (b, ap (◌∷◌ w) e))

  stopped_or_Running : (ws : List (Worker B)) → All (λ w. w ≡ stopped) ws ⊎ Running ws
  unfolding Running
  stopped_or_Running [] = inl tt
  stopped_or_Running (waiting ∷ ws) = inr ([], ws, inl refl)
  stopped_or_Running (busy b ∷ ws) = inr ([], ws, inr (b, refl))
  stopped_or_Running (stopped ∷ ws) = elim (stopped_or_Running ws) [
    | inl h ↦ inl (refl, h)
    | inr r ↦ inr (Running-cons stopped ws r)
  ]

  can_step : (p : Pool B) → p.senders ≡ 0 → Running p.workers → (q : Pool B) × Step p q
  unfolding Running
  can_step p z (before, after, inr (b, e)) = (_, finish before after b e)
  can_step p z (before, after, inl e) = by_queue p.queue refl
    where
      by_queue : (l : List B) → p.queue ≡ l → (q : Pool B) × Step p q
      by_queue [] f = (_, stop before after e f z)
      by_queue (b ∷ rest) f = (_, receive before after b rest e f)

  processing_stopped : (ws : List (Worker B)) → All (λ w. w ≡ stopped) ws → processing ws ≡ []
  unfolding processing
  processing_stopped [] h = refl
  processing_stopped (w ∷ ws) (e, h) = rw e (processing_stopped ws h)

  queue_empty : (p : Pool B) → IsLive p → All (λ w. w ≡ stopped) p.workers → p.queue ≡ []
  unfolding IsLive
  queue_empty p (n, inr (e, z)) all = e
  queue_empty p (n, inl h) all = absurd (clash p.workers n h all)
    where
      clash :
          (ws : List (Worker B))
          → ws ≢ []
          → All (λ w. w ≢ stopped) ws
          → All (λ w. w ≡ stopped) ws
          → ⊥
      clash [] n h k = n refl
      clash (w ∷ ws) n (h, _) (k, _) = h k

  -- In a pool of at least one worker whose senders are all dropped, some task can go on, until
  -- every worker has stopped; then the channel is empty, and what was finished is what was sent,
  -- each batch as often.
  pub drain_complete :
      (n : ℕ) (q : Pool B) (steps : Steps (new (suc n)) q)
      → q.senders ≡ 0
      → ((r : Pool B) × Step q r)
        ⊎ (All (λ w. w ≡ stopped) q.workers × (q.queue ≡ []) × Perm q.finished (sent steps))
  drain_complete n q steps z = elim (stopped_or_Running q.workers) [
    | inr running ↦ inl (can_step q z running)
    | inl all ↦
        let live = queue_empty q (Steps-IsLive steps (new-IsLive n _ refl)) all in
        let (order, accounted, _) = Steps-new (suc n) q steps in
        let idle =
          subst (λ l. Perm (q.finished ++ l) q.taken) (processing_stopped q.workers all)
            accounted in
        let whole = sym (append-nil q.taken) ∙ ap (λ l. q.taken ++ l) (sym live) ∙ order in
        inr (
          all,
          live,
          subst (Perm q.finished) whole (subst (λ l. Perm l q.taken) (append-nil q.finished) idle),
        )
  ]
