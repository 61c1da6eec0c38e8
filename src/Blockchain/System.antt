-- ===== src/Blockchain/System.antt =====
-- The tasks that src/main.rs and `start_polling` of src/blockchain/polling.rs spawn around the two
-- pairs of a batch manager and a worker pool, in small steps: a locked section of the buffer, a
-- batch that enters the channel, an event of a worker, and the outer mutex of the manager that the
-- polling uses. `added`, `lost` and `completed` record what happened.
pub mod Sending
pub mod Sound
pub mod Conserve
pub mod Unused
pub mod Locks
use chain_data_service.Base.{
  ℕ, suc, Bool, true, false, Option, none, some, List, [], ◌∷◌, ◌≡◌, length,
}
use chain_data_service.Models.{Transaction}
use chain_data_service.Blockchain.Batch.{DrainOrder, BatchConfig, default}
use chain_data_service.Blockchain.Lock.{Phase, waiting, in_start, done}
use chain_data_service.Blockchain.System.Sending.{
  Side, Progress, open_side, check_section, add_section, IsIdle,
}

-- Who holds the mutex around the manager of the polling.
pub data Holder : Type 0 where
  manager_task : Holder
  main_loop : Holder
  historical_loop : Holder

-- The two loops of `start_polling` add transactions.
pub data Loop : Holder → Type 0 where
  new_transactions : Loop main_loop
  old_transactions : Loop historical_loop

pub record System (F : Type 0) : Type 0 where
  -- The pair that `main` makes.
  pub own : Side F
  -- The pair that `start_polling` makes.
  pub polling : Side F
  pub holder : Option Holder
  pub phase : Phase
  pub is_cancelled : Bool
  pub added : List (Transaction F)
  -- The calls of `add_transaction` that have returned.
  pub completed : ℕ

-- The configuration in `start_polling`, in seconds.
unfoldable pub polling_config : ℕ → BatchConfig
polling_config num_cpus = record {
  max_batch_size = 100;
  flush_interval = 5;
  worker_count = num_cpus;
}

module _ {F : Type 0} where
  -- `main` makes the first pair with the default configuration, `start_polling` the second one.
  unfoldable pub launch : (worker_count num_cpus now : ℕ) → System F
  unfolding open_side default polling_config
  launch worker_count num_cpus now = record {
    own = open_side now (default num_cpus) worker_count;
    polling = open_side now (polling_config num_cpus) num_cpus;
    holder = none;
    phase = waiting;
    is_cancelled = false;
    added = [];
    completed = 0;
  }

  module _ (order : DrainOrder F) where
    pub data Step : System F → System F → Type 0 where
      -- The task of main's manager: its checks, without a mutex around it.
      own_check :
          {s : System F} (now : ℕ)
          → IsIdle s.own
          → Step s (record s { own = check_section order now s.own })
      own_progress : {s : System F} {p : Side F} → Progress s.own p → Step s (record s { own = p })
      polling_progress :
          {s : System F} {p : Side F} → Progress s.polling p → Step s (record s { polling = p })
      -- The task of the polling's manager takes the mutex for `start`.
      lock_manager :
          {s : System F}
          → s.holder ≡ none
          → s.phase ≡ waiting
          → Step s (record s { holder = some manager_task; phase = in_start })
      polling_check :
          {s : System F} (now : ℕ)
          → s.phase ≡ in_start
          → IsIdle s.polling
          → Step s (record s { polling = check_section order now s.polling })
      -- It ends at the shutdown; whether its last check is made before is left open.
      start_ends :
          {s : System F}
          → s.phase ≡ in_start
          → s.is_cancelled ≡ true
          → IsIdle s.polling
          → Step s (record s { holder = none; phase = done })
      -- A loop of the polling: it takes the mutex, adds, and lets it go when `add_transaction`
      -- returns.
      lock_loop :
          {s : System F} (h : Holder)
          → Loop h
          → s.holder ≡ none
          → Step s (record s { holder = some h })
      add :
          {s : System F} (h : Holder) (now : ℕ) (t : Transaction F)
          → Loop h
          → s.holder ≡ some h
          → length s.added ≡ s.completed
          → IsIdle s.polling
          → Step s (record s { polling = add_section order now t s.polling; added = t ∷ s.added })
      unlock_loop :
          {s : System F} (h : Holder)
          → Loop h
          → s.holder ≡ some h
          → length s.added ≡ suc s.completed
          → IsIdle s.polling
          → Step s (record s { holder = none; completed = suc s.completed })
      cancel : {s : System F} → Step s (record s { is_cancelled = true })

    pub data Steps : System F → System F → Type 0 where
      here : {s : System F} → Steps s s
      next : {s t u : System F} → Steps s t → Step t u → Steps s u
