-- ===== src/Blockchain/Lock.antt =====
-- The mutex that `start_polling` of src/blockchain/polling.rs puts around the batch manager: the
-- spawned task locks it and runs `manager.start` inside the guard's scope; the polling locks it for
-- each transaction.
use chain_data_service.Base.{
  ℕ, suc, Bool, true, false, Option, none, some, ◌≡◌, ◌⊎◌, inl, inr, refl, arith,
}

pub data Task : Type 0 where
  manager_task : Task
  polling_task : Task

-- Where the spawned task is.
pub data Phase : Type 0 where
  waiting : Phase
  in_start : Phase
  done : Phase

pub record State : Type 0 where
  pub holder : Option Task
  pub phase : Phase
  pub is_cancelled : Bool
  -- The calls of `add_transaction` that the polling has completed.
  pub added : ℕ

unfoldable pub initial : State
initial = record { holder = none; phase = waiting; is_cancelled = false; added = 0 }

-- One step of one of the tasks, or of the process that cancels the token.
pub data Step : State → State → Type 0 where
  lock_manager :
      {s : State}
      → s.holder ≡ none
      → s.phase ≡ waiting
      → Step s (record s { holder = some manager_task; phase = in_start })
  flush_check : {s : State} → s.phase ≡ in_start → Step s s
  start_ends :
      {s : State}
      → s.phase ≡ in_start
      → s.is_cancelled ≡ true
      → Step s (record s { holder = none; phase = done })
  lock_polling : {s : State} → s.holder ≡ none → Step s (record s { holder = some polling_task })
  add_and_unlock :
      {s : State}
      → s.holder ≡ some polling_task
      → Step s (record s { holder = none; added = suc s.added })
  cancel : {s : State} → Step s (record s { is_cancelled = true })

pub data Steps : State → State → Type 0 where
  here : {s : State} → Steps s s
  next : {s t u : State} → Steps s t → Step t u → Steps s u

-- What stays true from the moment the spawned task has the lock.
record IsBlocked (n : ℕ) (s : State) : Type 0 where
  phase_kept : s.phase ≡ in_start
  holder_kept : s.holder ≡ some manager_task
  added_kept : s.added ≡ n

Step-IsBlocked :
    {s t : State} (n : ℕ)
    → Step s t
    → (s.is_cancelled ≡ true) ⊎ IsBlocked n s
    → (t.is_cancelled ≡ true) ⊎ IsBlocked n t
Step-IsBlocked n (lock_manager free w) b = ground arith
Step-IsBlocked n (flush_check p) b = b
Step-IsBlocked n (start_ends p c) b = ground arith
Step-IsBlocked n (lock_polling free) b = ground arith
Step-IsBlocked n (add_and_unlock h) b = ground arith
Step-IsBlocked n cancel b = inl refl

Steps-IsBlocked :
    {s t : State} (n : ℕ)
    → Steps s t
    → (s.is_cancelled ≡ true) ⊎ IsBlocked n s
    → (t.is_cancelled ≡ true) ⊎ IsBlocked n t
Steps-IsBlocked n here b = b
Steps-IsBlocked n (next rest step) b = Step-IsBlocked n step (Steps-IsBlocked n rest b)

-- Once the spawned task has the lock, no transaction is added by the polling before the shutdown:
-- in every state that is reached from there, the token is cancelled or the count is as it was.
pub added_after_lock :
    (s t : State)
    → s.phase ≡ in_start
    → s.holder ≡ some manager_task
    → Steps s t
    → (t.is_cancelled ≡ true) ⊎ (t.added ≡ s.added)
added_after_lock s t p h steps = ground (
  arith,
  Steps-IsBlocked s.added steps
      (inr (record { phase_kept = p; holder_kept = h; added_kept = refl })),
)
