-- ===== src/Witnesses/Pools.antt =====
-- The theorems on the workers of src/blockchain/worker_pool.rs, at a run of one worker and one
-- batch.
use mathlib.Core.List.{Perm}
use chain_data_service.Base.{ℕ, ◌≤◌, [], ◌∷◌, ◌++◌, ◌≡◌, ◌⊎◌, refl, arith, length, All}
use chain_data_service.Blockchain.Workers.{
  Pool, waiting, busy, stopped, spawn, new, Step, Steps, here, next, send, drop_sender, receive,
  finish, stop, sent,
}
use chain_data_service.Blockchain.Workers.Order.{processing, Steps-new}
use chain_data_service.Blockchain.Workers.Drain.{measure, count_steps, drain-bound}
use chain_data_service.Blockchain.Workers.Live.{drain_complete}

abbrev closed : Pool ℕ
closed = record { queue = 8 ∷ []; senders = 0; workers = waiting ∷ []; taken = []; finished = [] }

abbrev received : Pool ℕ
received = record { queue = []; senders = 0; workers = busy 8 ∷ []; taken = 8 ∷ []; finished = [] }

abbrev ended : Pool ℕ
ended = record {
  queue = [];
  senders = 0;
  workers = stopped ∷ [];
  taken = 8 ∷ [];
  finished = 8 ∷ [];
}

to_closed : Steps (new 1) closed
unfolding new spawn
to_closed = next (next here (send 8 (omega arith) (λ e. cc) (omega arith))) (drop_sender 0 refl)

from_closed : Steps closed ended
from_closed =
    next (next (next here (receive [] [] 8 [] refl refl)) (finish [] [] 8 refl))
      (stop [] [] refl refl refl)

to_received : Steps (new 1) received
to_received = next to_closed (receive [] [] 8 [] refl refl)

to_ended : Steps (new 1) ended
to_ended = next (next to_received (finish [] [] 8 refl)) (stop [] [] refl refl refl)

Steps-new_example :
    (received.taken ++ received.queue ≡ sent to_received)
    × Perm (received.finished ++ processing received.workers) received.taken
    × (length received.queue ≤ 1000)
Steps-new_example = Steps-new 1 received to_received

drain-bound_example : count_steps from_closed ≤ measure closed
drain-bound_example = drain-bound closed ended from_closed refl

drain_complete_example :
    ((r : Pool ℕ) × Step ended r)
    ⊎ (All (λ w. w ≡ stopped) ended.workers
        × (ended.queue ≡ [])
        × Perm ended.finished (sent to_ended))
drain_complete_example = drain_complete 0 ended to_ended refl
