-- ===== src/Blockchain/System/Unused.antt =====
-- The worker pool and the batch manager that src/main.rs makes get nothing to do.
use mathlib.Core.List.Perm
use chain_data_service.Base.{
  ℕ, List, [], ◌∷◌, ◌++◌, ◌≡◌, refl, sym, subst, ap, ◌∙◌, append-nil, arith,
}
use chain_data_service.Blockchain.Batch.{DrainOrder}
use chain_data_service.Blockchain.Batch
use chain_data_service.Blockchain.Workers.Order.{processing, Step-order}
use chain_data_service.Blockchain.System.{System, Step, Steps, here, next, launch}
use chain_data_service.Blockchain.System
use chain_data_service.Blockchain.System.Sending.{
  Side, Progress, deliver, refuse, work, check_section, open_side,
}
use chain_data_service.Blockchain.System.Conserve.{launched}

append-eq-nil : {A : Type 0} (xs ys : List A) → xs ++ ys ≡ [] → (xs ≡ []) × (ys ≡ [])
append-eq-nil [] ys e = (refl, e)
append-eq-nil (x ∷ xs) ys e = absurd (ground (arith, e))

module _ {F : Type 0} (order : DrainOrder F) where
  record IsUnused (s : Side F) : Type 0 where
    nothing_pending : s.buffer.total_size ≡ 0
    nothing_sending : s.sending ≡ []
    nothing_sent : s.pool.taken ++ s.pool.queue ≡ []

  check_section-IsUnused : (now : ℕ) (s : Side F) → IsUnused s → check_section order now s ≡ s
  unfolding check_section
  check_section-IsUnused now s v = ground (arith, v.nothing_pending)

  Progress-IsUnused : {s u : Side F} → Progress s u → IsUnused s → IsUnused u
  Progress-IsUnused (deliver full alive room) v = absurd (full v.nothing_sending)
  Progress-IsUnused (refuse full none_left) v = absurd (full v.nothing_sending)
  Progress-IsUnused {s} (work step silent) v = record {
    nothing_pending = v.nothing_pending;
    nothing_sending = v.nothing_sending;
    nothing_sent =
        Step-order step
        ∙ ap (λ l. (s.pool.taken ++ s.pool.queue) ++ l) silent
        ∙ append-nil _
        ∙ v.nothing_sent;
  }

  Step-IsUnused : {s t : System F} → Step order s t → IsUnused s.own → IsUnused t.own
  Step-IsUnused {s} (System.own_check now idle) v =
      subst IsUnused (sym (check_section-IsUnused now s.own v)) v
  Step-IsUnused (System.own_progress p) v = Progress-IsUnused p v
  Step-IsUnused (System.polling_progress p) v = v
  Step-IsUnused (System.lock_manager free w) v = v
  Step-IsUnused (System.polling_check now p idle) v = v
  Step-IsUnused (System.start_ends p c idle) v = v
  Step-IsUnused (System.lock_loop h l free) v = v
  Step-IsUnused (System.add h now t l held fresh idle) v = v
  Step-IsUnused (System.unlock_loop h l held done idle) v = v
  Step-IsUnused System.cancel v = v

  Steps-IsUnused : {s t : System F} → Steps order s t → IsUnused s.own → IsUnused t.own
  Steps-IsUnused here v = v
  Steps-IsUnused (next rest step) v = Step-IsUnused step (Steps-IsUnused rest v)

  -- Whatever the tasks of the program do in whatever order, the pool that main starts and awaits
  -- never gets a batch: its channel stays empty, and its workers have taken, are processing and have
  -- finished none.
  pub own_pool_unused :
      (worker_count num_cpus now : ℕ) (s : System F)
      → Steps order (launch worker_count num_cpus now) s
      → let pool = s.own.pool in
        (pool.queue ≡ [])
        × (pool.taken ≡ [])
        × (processing pool.workers ≡ [])
        × (pool.finished ≡ [])
  unfolding launch open_side Batch.new
  own_pool_unused worker_count num_cpus now s steps =
      let start : IsUnused (launch worker_count num_cpus now).own = record {
        nothing_pending = refl;
        nothing_sending = refl;
        nothing_sent = refl;
      } in
      let pool = s.own.pool in
      let (taken, queue) =
        append-eq-nil pool.taken pool.queue (Steps-IsUnused steps start).nothing_sent in
      let (own, _) = launched order worker_count num_cpus now s steps in
      let (finished, processed) =
        append-eq-nil pool.finished (processing pool.workers)
          (Perm.eq-nil (rw taken at own.handed_on.accounted)) in
      (queue, taken, processed, finished)
