-- ===== src/Blockchain/System/Locks.antt =====
-- The tasks of the program, seen from the mutex around the manager of the polling: they keep to the
-- steps of Blockchain.Lock, so that what its manager holds there holds of them.
use mathlib.Core.List.{Perm}
use chain_data_service.Base.{
  ℕ, ◌<◌, true, Option, none, some, List, ◌≡◌, ◌⊎◌, inl, inr, refl, sym, subst, arith, ap, ◌≢◌, ◌∙◌,
}
use chain_data_service.Models.{Transaction}
use chain_data_service.Blockchain.Batch.{DrainOrder}
use chain_data_service.Blockchain.Lock
use chain_data_service.Blockchain.Lock.{in_start}
use chain_data_service.Blockchain.System.{
  System, Step, Steps, here, next, launch, Holder, main_loop, historical_loop, manager_task, Loop,
  new_transactions, old_transactions,
}
use chain_data_service.Blockchain.System
use chain_data_service.Blockchain.System.Conserve.{whereabouts, Steps-launch}

-- Both loops are the polling.
unfoldable task_of : Holder → Lock.Task
task_of manager_task = Lock.manager_task
task_of main_loop = Lock.polling_task
task_of historical_loop = Lock.polling_task

unfoldable holder_of : Option Holder → Option Lock.Task
unfolding task_of
holder_of none = none
holder_of (some h) = some (task_of h)

Loop-task_of : (h : Holder) → Loop h → task_of h ≡ Lock.polling_task
unfolding task_of
Loop-task_of manager_task l = elim l [ ]
Loop-task_of main_loop new_transactions = refl
Loop-task_of historical_loop old_transactions = refl

module _ {F : Type 0} where
  unfoldable pub lock_of : System F → Lock.State
  unfolding holder_of
  lock_of s = record {
    holder = holder_of s.holder;
    phase = s.phase;
    is_cancelled = s.is_cancelled;
    added = s.completed;
  }

  module _ (order : DrainOrder F) where
    once : {s t : Lock.State} → Lock.Step s t → Lock.Steps s t
    once step = Lock.next Lock.here step

    Step-lock_of : {s t : System F} → Step order s t → Lock.Steps (lock_of s) (lock_of t)
    unfolding lock_of holder_of task_of
    Step-lock_of (System.own_check now idle) = Lock.here
    Step-lock_of (System.own_progress p) = Lock.here
    Step-lock_of (System.polling_progress p) = Lock.here
    Step-lock_of (System.lock_manager free w) = once (Lock.lock_manager (ap holder_of free) w)
    Step-lock_of (System.polling_check now p idle) = Lock.here
    Step-lock_of (System.start_ends p c idle) = once (Lock.start_ends p c)
    Step-lock_of (System.lock_loop h l free) =
        rw (Loop-task_of h l) (once (Lock.lock_polling (ap holder_of free)))
    Step-lock_of (System.add h now t l held fresh idle) = Lock.here
    Step-lock_of (System.unlock_loop h l held done idle) =
        once (Lock.add_and_unlock (rw (held, Loop-task_of h l) refl))
    Step-lock_of System.cancel = once Lock.cancel

    steps_trans : {s t u : Lock.State} → Lock.Steps s t → Lock.Steps t u → Lock.Steps s u
    steps_trans first Lock.here = first
    steps_trans first (Lock.next rest step) = Lock.next (steps_trans first rest) step

    -- Every run of the tasks of the program is a run of the mutex by the tasks of Blockchain.Lock,
    -- whose count of added transactions is that of the calls of add_transaction which have returned.
    pub Steps-lock_of : {s t : System F} → Steps order s t → Lock.Steps (lock_of s) (lock_of t)
    Steps-lock_of here = Lock.here
    Steps-lock_of (next rest step) = steps_trans (Steps-lock_of rest) (Step-lock_of step)

    -- What stays true from the moment the manager's task has the mutex.
    abbrev IsShut : List (Transaction F) → System F → Type 0
    IsShut got s =
        (s.is_cancelled ≡ true)
        ⊎ ((s.phase ≡ in_start) × (s.holder ≡ some manager_task) × (s.added ≡ got))

    manager_adds_none : (h : Holder) → Loop h → some manager_task ≢ some h
    manager_adds_none manager_task l = elim l [ ]
    manager_adds_none main_loop l = λ e. cc
    manager_adds_none historical_loop l = λ e. cc

    Step-IsShut :
        (got : List (Transaction F)) {s t : System F} → Step order s t → IsShut got s → IsShut got t
    Step-IsShut got (System.own_check now idle) b = b
    Step-IsShut got (System.own_progress p) b = b
    Step-IsShut got (System.polling_progress p) b = b
    Step-IsShut got (System.lock_manager free w) b = ground arith
    Step-IsShut got (System.polling_check now p idle) b = b
    Step-IsShut got (System.start_ends p c idle) b = inl c
    Step-IsShut got (System.lock_loop h l free) b = ground arith
    Step-IsShut got (System.add h now t l held fresh idle) (inl c) = inl c
    Step-IsShut got (System.add h now t l held fresh idle) (inr (p, own, e)) =
        absurd (manager_adds_none h l (sym own ∙ held))
    Step-IsShut got (System.unlock_loop h l held done idle) (inl c) = inl c
    Step-IsShut got (System.unlock_loop h l held done idle) (inr (p, own, e)) =
        absurd (manager_adds_none h l (sym own ∙ held))
    Step-IsShut got System.cancel b = inl refl

    Steps-IsShut :
        (got : List (Transaction F)) {s t : System F}
        → Steps order s t
        → IsShut got s
        → IsShut got t
    Steps-IsShut got here b = b
    Steps-IsShut got (next rest step) b = Step-IsShut got step (Steps-IsShut got rest b)

    run_on : {s t u : System F} → Steps order s t → Steps order t u → Steps order s u
    run_on first here = first
    run_on first (next rest step) = next (run_on first rest) step

    -- Once the manager's task has the mutex, and until the shutdown, the transactions on the side of
    -- the polling, from the manager's buffer to the work that is finished, are those that were added
    -- by then, each as often: nothing that is polled later is ever taken over. The machine has a
    -- processor.
    pub nothing_added_after :
        (worker_count num_cpus now : ℕ) (s t : System F)
        → Steps order (launch worker_count num_cpus now) s
        → 0 < num_cpus
        → s.phase ≡ in_start
        → s.holder ≡ some manager_task
        → Steps order s t
        → (t.is_cancelled ≡ true) ⊎ Perm (whereabouts t.polling) s.added
    nothing_added_after worker_count num_cpus now s t before some_cpu p own after =
        elim (Steps-IsShut s.added after (inr (p, own, refl))) [
          | inl c ↦ inl c
          | inr (_, _, same) ↦
              let (all, _) =
                Steps-launch order worker_count num_cpus now t (run_on before after) some_cpu in
              inr (subst (Perm (whereabouts t.polling)) same all)
        ]
