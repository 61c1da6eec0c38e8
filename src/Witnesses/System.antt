-- ===== src/Witnesses/System.antt =====
-- The theorems of Blockchain.System at a run on a machine with one processor: the main loop adds a
-- payment, and then the manager's task takes the mutex.
use mathlib.Core.List.{Perm}
use chain_data_service.Base.{ℕ, true, none, some, [], ◌∷◌, ◌≡◌, ◌≤◌, ◌⊎◌, refl, length, arith}
use chain_data_service.Blockchain.Batch
use chain_data_service.Blockchain.Batch.{add_transaction, perform_flush_check, default}
use chain_data_service.Blockchain.Lock
use chain_data_service.Blockchain.Workers.Order.{processing}
use chain_data_service.Blockchain.System.{
  System, Steps, here, next, launch, lock_loop, add, unlock_loop, lock_manager, main_loop,
  manager_task, new_transactions,
}
use chain_data_service.Blockchain.System.Sending.{open_side, add_section}
use chain_data_service.Blockchain.System.Conserve.{whereabouts, Steps-launch}
use chain_data_service.Blockchain.System.Unused.{own_pool_unused}
use chain_data_service.Blockchain.System.Locks.{nothing_added_after}
use chain_data_service.Fixtures.{payment, same_order}

abbrev started : System ℕ
started = launch 1 1 0

abbrev loop_in : System ℕ
loop_in = record started { holder = some main_loop }

abbrev in_buffer : System ℕ
in_buffer = record loop_in {
  polling = add_section same_order 1 payment started.polling;
  added = payment ∷ [];
}

abbrev let_go : System ℕ
let_go = record in_buffer { holder = none; completed = 1 }

abbrev in_start : System ℕ
in_start = record let_go { holder = some manager_task; phase = Lock.in_start }

run_to_start : Steps same_order started in_start
unfolding launch open_side Batch.new add_section
run_to_start =
    next
      (next
        (next (next here (lock_loop main_loop new_transactions refl))
          (add main_loop 1 payment new_transactions refl refl refl))
        (unlock_loop main_loop new_transactions refl refl refl))
      (lock_manager refl refl)

Steps-launch_example :
    Perm (whereabouts in_start.polling) (payment ∷ []) × (length in_start.polling.pool.queue ≤ 1000)
Steps-launch_example = Steps-launch same_order 1 1 0 in_start run_to_start (omega arith)

own_pool_unused_example :
    (in_start.own.pool.queue ≡ [])
    × (in_start.own.pool.taken ≡ [])
    × (processing in_start.own.pool.workers ≡ [])
    × (in_start.own.pool.finished ≡ [])
own_pool_unused_example = own_pool_unused same_order 1 1 0 in_start run_to_start

nothing_added_after_example :
    (in_start.is_cancelled ≡ true) ⊎ Perm (whereabouts in_start.polling) (payment ∷ [])
nothing_added_after_example =
    nothing_added_after same_order 1 1 0 in_start in_start run_to_start (omega arith) refl refl here
