-- ===== src/Blockchain/Workers/Order.antt =====
-- What happens to the batches that are sent to the workers of src/blockchain/worker_pool.rs.
use mathlib.Core.List.{Perm, perm_middle, perm_append_singleton}
use mathlib.Core.List.Perm
use chain_data_service.Base.{
  ℕ, zero, suc, ◌≤◌, List, [], ◌∷◌, ◌++◌, ◌≡◌, refl, ap, sym, subst, ◌∙◌, length, length-append,
  append_assoc, append-nil, arith,
}
use chain_data_service.Blockchain.Workers.{
  Worker, waiting, busy, stopped, Pool, capacity, spawn, new, Step, send, get_sender, drop_sender,
  receive, finish, stop, Steps, here, next, sent_in, sent,
}

module _ {B : Type 0} where
  -- The batches that the workers are processing.
  unfoldable pub processing : List (Worker B) → List B
  processing [] = []
  processing (waiting ∷ ws) = processing ws
  processing (busy b ∷ ws) = b ∷ processing ws
  processing (stopped ∷ ws) = processing ws

  processing-append :
      (ws vs : List (Worker B)) → processing (ws ++ vs) ≡ processing ws ++ processing vs
  unfolding processing
  processing-append [] vs = refl
  processing-append (waiting ∷ ws) vs = processing-append ws vs
  processing-append (busy b ∷ ws) vs = ap (◌∷◌ b) (processing-append ws vs)
  processing-append (stopped ∷ ws) vs = processing-append ws vs

  pub Step-order :
      {p q : Pool B} (step : Step p q) → q.taken ++ q.queue ≡ (p.taken ++ p.queue) ++ sent_in step
  unfolding sent_in
  Step-order {p} (send b open_ alive room) = sym (append_assoc p.taken p.queue (b ∷ []))
  Step-order (get_sender open_) = sym (append-nil _)
  Step-order (drop_sender n e) = sym (append-nil _)
  Step-order {p} (receive before after b rest w e) =
      rw e (append_assoc p.taken (b ∷ []) rest ∙ sym (append-nil _))
  Step-order (finish before after b w) = sym (append-nil _)
  Step-order (stop before after w e s) = sym (append-nil _)

  Steps-order :
      {p q : Pool B} (steps : Steps p q) → q.taken ++ q.queue ≡ (p.taken ++ p.queue) ++ sent steps
  unfolding sent
  Steps-order here = sym (append-nil _)
  Steps-order (next rest step) =
      Step-order step
      ∙ ap (λ l. l ++ sent_in step) (Steps-order rest)
      ∙ append_assoc _ (sent rest) (sent_in step)

  -- No batch is lost or processed twice while it is handed on, and the channel is bounded.
  pub record IsConserved (p : Pool B) : Type 0 where
    pub accounted : Perm (p.finished ++ processing p.workers) p.taken
    pub bounded : length p.queue ≤ capacity

  moved :
      (p : Pool B) (before after : List (Worker B)) (w : Worker B)
      → p.workers ≡ before ++ w ∷ after
      → processing p.workers ≡ processing before ++ processing (w ∷ after)
  moved p before after w e = rw e (processing-append before (w ∷ after))

  -- The batches finished and in work, by the place of a worker.
  abbrev in_work : List B → List (Worker B) → List B → List (Worker B) → List B
  in_work finished before own after = finished ++ (processing before ++ (own ++ processing after))

  taken-perm :
      (finished taken : List B) (before after : List (Worker B)) (b : B)
      → Perm (in_work finished before [] after) taken
      → Perm (in_work finished before (b ∷ []) after) (taken ++ b ∷ [])
  taken-perm finished taken before after b h =
      Perm.trans (Perm.append_left finished (perm_middle (processing before) (processing after))) (
        Perm.trans (perm_middle finished _)
          (Perm.trans (Perm.cons b h) (Perm.symm (perm_append_singleton b taken))))

  finished-perm :
      (finished taken : List B) (before after : List (Worker B)) (b : B)
      → Perm (in_work finished before (b ∷ []) after) taken
      → Perm (in_work (finished ++ b ∷ []) before [] after) taken
  finished-perm finished taken before after b h = rw append_assoc (
      Perm.trans
        (Perm.append_left finished (Perm.symm (perm_middle (processing before) (processing after))))
        h)

  accounted_at :
      (p : Pool B) (before after : List (Worker B)) (w : Worker B)
      → p.workers ≡ before ++ w ∷ after
      → IsConserved p
      → Perm (p.finished ++ (processing before ++ processing (w ∷ after))) p.taken
  accounted_at p before after w e v =
      subst (λ l. Perm (p.finished ++ l) p.taken) (moved p before after w e) v.accounted

  pub Step-IsConserved : {p q : Pool B} → Step p q → IsConserved p → IsConserved q
  unfolding processing
  Step-IsConserved {p} (send b open_ alive room) v = record {
    accounted = v.accounted;
    bounded = omega (arith, length-append p.queue (b ∷ []));
  }
  Step-IsConserved (get_sender open_) v = record { accounted = v.accounted; bounded = v.bounded }
  Step-IsConserved (drop_sender n e) v = record { accounted = v.accounted; bounded = v.bounded }
  Step-IsConserved {p} (receive before after b rest w e) v = record {
    accounted =
        rw (processing-append before (busy b ∷ after))
          (taken-perm p.finished p.taken before after b (accounted_at p before after waiting w v));
    bounded =
        let shorter : length p.queue ≡ suc (length rest) = ap length e in
        let most = v.bounded in omega arith;
  }
  Step-IsConserved {p} (finish before after b w) v = record {
    accounted = rw (processing-append before (waiting ∷ after)) (
        finished-perm p.finished p.taken before after b (accounted_at p before after (busy b) w v));
    bounded = v.bounded;
  }
  Step-IsConserved {p} (stop before after w e s) v = record {
    accounted =
        rw (processing-append before (stopped ∷ after)) (accounted_at p before after waiting w v);
    bounded = v.bounded;
  }

  Steps-IsConserved : {p q : Pool B} → Steps p q → IsConserved p → IsConserved q
  Steps-IsConserved here v = v
  Steps-IsConserved (next rest step) v = Step-IsConserved step (Steps-IsConserved rest v)

  pub processing-spawn : (n : ℕ) → processing (spawn n) ≡ []
  unfolding spawn processing
  processing-spawn zero = refl
  processing-spawn (suc n) = processing-spawn n

  -- From a new pool, whatever the tasks do in whatever order: the workers take the batches in the
  -- order in which they were sent, each batch that was taken is finished or being processed by one
  -- worker, each as often, those not taken are in the channel, and that holds at most 1000.
  pub Steps-new :
      (worker_count : ℕ) (q : Pool B) (steps : Steps (new worker_count) q)
      → (q.taken ++ q.queue ≡ sent steps)
        × Perm (q.finished ++ processing q.workers) q.taken
        × (length q.queue ≤ 1000)
  unfolding new
  Steps-new worker_count q steps =
      let start : IsConserved (new worker_count) = record {
        accounted = rw (processing-spawn worker_count) Perm.rfl;
        bounded = omega arith;
      } in
      let kept = Steps-IsConserved steps start in (Steps-order steps, kept.accounted, kept.bounded)
