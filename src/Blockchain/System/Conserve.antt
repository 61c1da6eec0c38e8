-- ===== src/Blockchain/System/Conserve.antt =====
-- Where the transactions are that the polling of src/blockchain/polling.rs adds, and what the pair
-- of src/main.rs gets, while all the tasks go on in any order.
use mathlib.Core.List.{Perm}
use mathlib.Core.List.Perm
use chain_data_service.Base.{
  ℕ, ◌≤◌, ◌<◌, List, [], ◌++◌, flatten, append_assoc, flatten-perm, flatten-append, length,
}
use chain_data_service.Models.{Transaction}
use chain_data_service.Blockchain.Batch.{DrainOrder}
use chain_data_service.Blockchain.Batch.Conserve.{all_pending}
use chain_data_service.Blockchain.Workers.Order.{processing}
use chain_data_service.Blockchain.System.{System, Step, Steps, here, next, launch}
use chain_data_service.Blockchain.System
use chain_data_service.Blockchain.System.Sending.{Side}
use chain_data_service.Blockchain.System.Sound.{
  carried, IsSound, open_side-IsSound, Progress-IsSound, check_section-IsSound, add_section-IsSound,
}

module _ {F : Type 0} where
  -- What the workers of a side have finished and are processing, what is in its channel, on the way
  -- there, and in its buffer.
  unfoldable pub whereabouts : Side F → List (Transaction F)
  whereabouts s =
      flatten (s.pool.finished ++ processing s.pool.workers)
      ++ (flatten s.pool.queue ++ (s.sending ++ all_pending s.buffer.pending))

module _ {F : Type 0} (order : DrainOrder F) (worker_count num_cpus : ℕ) where
  -- What stays true of the two sides: main's gets nothing.
  abbrev IsKept : System F → Type 0
  IsKept s = IsSound worker_count [] s.own × IsSound num_cpus s.added s.polling

  Step-IsKept : {s t : System F} → Step order s t → IsKept s → IsKept t
  Step-IsKept {s} (System.own_check now idle) (own, polling) =
      (check_section-IsSound order worker_count now [] s.own idle own, polling)
  Step-IsKept (System.own_progress p) (own, polling) =
      (Progress-IsSound worker_count [] p own, polling)
  Step-IsKept {s} (System.polling_progress p) (own, polling) =
      (own, Progress-IsSound num_cpus s.added p polling)
  Step-IsKept (System.lock_manager free w) v = v
  Step-IsKept {s} (System.polling_check now p idle) (own, polling) =
      (own, check_section-IsSound order num_cpus now s.added s.polling idle polling)
  Step-IsKept (System.start_ends p c idle) v = v
  Step-IsKept (System.lock_loop h l free) v = v
  Step-IsKept {s} (System.add h now t l held fresh idle) (own, polling) =
      (own, add_section-IsSound order num_cpus now s.added s.polling idle polling t)
  Step-IsKept (System.unlock_loop h l held done idle) v = v
  Step-IsKept System.cancel v = v

  Steps-IsKept : {s t : System F} → Steps order s t → IsKept s → IsKept t
  Steps-IsKept here v = v
  Steps-IsKept (next rest step) v = Step-IsKept step (Steps-IsKept rest v)

  pub launched :
      (now : ℕ) (s : System F) → Steps order (launch worker_count num_cpus now) s → IsKept s
  unfolding launch
  launched now s steps =
      Steps-IsKept steps
        (open_side-IsSound worker_count [] now _, open_side-IsSound num_cpus [] now _)

  whereabouts-perm :
      (n : ℕ) (got : List (Transaction F)) (s : Side F)
      → IsSound n got s
      → 0 < n
      → Perm (whereabouts s) got
  unfolding carried whereabouts
  whereabouts-perm n got s v some_worker =
      let waiting = s.sending ++ all_pending s.buffer.pending in
      let conserved = v.handed_on in
      Perm.trans
        (Perm.append_right (flatten s.pool.queue ++ waiting) (flatten-perm conserved.accounted))
        (rw (v.kept some_worker, flatten-append, append_assoc) at v.whole)

  -- From the start of the program on, whatever its tasks do in whatever order: on a machine with a
  -- processor, the transactions that the polling has added are, each as often, those in its
  -- manager's buffer, on their way to its channel, in the channel, in work, or finished; the channel
  -- holds at most 1000 batches.
  pub Steps-launch :
      (now : ℕ) (s : System F) (steps : Steps order (launch worker_count num_cpus now) s)
      → 0 < num_cpus
      → let polling = s.polling in
        Perm (whereabouts polling) s.added × (length polling.pool.queue ≤ 1000)
  Steps-launch now s steps some_cpu =
      let kept = (launched now s steps).1 in
      (whereabouts-perm num_cpus s.added s.polling kept some_cpu, kept.handed_on.bounded)
