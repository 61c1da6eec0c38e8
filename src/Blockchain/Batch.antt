-- ===== src/Blockchain/Batch.antt =====
-- src/blockchain/batch_manager.rs. Clock readings and durations are numbers of one unit, and a
-- locked section reads the clock once. The sender of the worker channel is the state `Channel`: a
-- send to an open channel queues the batch for a worker, at the time at which the source's send
-- returns, which a full channel puts off (Blockchain.System has its capacity); a send to a closed one
-- is logged and dropped. The order in which a HashMap is drained is the field `drain` of `DrainOrder`.
pub mod Conserve
pub mod Bounds
use mathlib.Core.List.{Perm}
use chain_data_service.Base.{
  ℕ, zero, suc, ◌+◌, ◌-◌, String, Bool, true, false, List, [], ◌∷◌, ◌++◌, map, flatten, leb, ◌==◌,
  ◌||◌, if◌then◌else◌, str_eq,
}
use chain_data_service.Models.{Transaction}

pub record BatchConfig : Type 0 where
  pub max_batch_size : ℕ
  pub flush_interval : ℕ
  pub worker_count : ℕ

-- `BatchConfig::default()`, in seconds.
unfoldable pub default : ℕ → BatchConfig
default num_cpus = record { max_batch_size = 100; flush_interval = 5; worker_count = num_cpus }

abbrev pub Pending : Type 0 → Type 0
Pending F = List (String × List (Transaction F))

pub record DrainOrder (F : Type 0) : Type 0 where
  pub drain : Pending F → Pending F
  pub drain-perm : (p : Pending F) → Perm (drain p) p

pub record TransactionBuffer (F : Type 0) : Type 0 where
  pub pending : Pending F
  pub total_size : ℕ
  pub last_flush : ℕ

pub record Channel (F : Type 0) : Type 0 where
  pub is_open : Bool
  pub queue : List (List (Transaction F))

pub record BatchManager (F : Type 0) : Type 0 where
  pub buffer : TransactionBuffer F
  pub config : BatchConfig
  pub worker_sender : Channel F

-- What reaches the manager while `start` runs, each with the clock: calls of the other tasks, a
-- tick of the interval, and the cancellation, after which `start` makes a last check and ends.
pub data Event (F : Type 0) : Type 0 where
  add : ℕ → Transaction F → Event F
  force : ℕ → Event F
  tick : ℕ → Event F
  cancelled : ℕ → Event F

module _ {F : Type 0} where
  unfoldable pub new : ℕ → BatchConfig → Channel F → BatchManager F
  new now config worker_sender = record {
    buffer = record { pending = []; total_size = 0; last_flush = now };
    config = config;
    worker_sender = worker_sender;
  }

  -- `pending.entry(address).or_insert_with(Vec::new).push(transaction)`
  unfoldable pub push_pending : String → Transaction F → Pending F → Pending F
  push_pending address t [] = (address, t ∷ []) ∷ []
  push_pending address t ((a, ts) ∷ p) =
      if str_eq a address then (a, ts ++ t ∷ []) ∷ p else (a, ts) ∷ push_pending address t p

  unfoldable pub push_transaction : Transaction F → TransactionBuffer F → TransactionBuffer F
  push_transaction t b = record b {
    pending = push_pending t.source_address t b.pending;
    total_size = b.total_size + 1;
  }

  unfoldable pub should_flush : BatchConfig → ℕ → TransactionBuffer F → Bool
  should_flush config now b =
      leb config.max_batch_size b.total_size || leb config.flush_interval (now - b.last_flush)

  -- `send` of a batch that is not empty.
  unfoldable pub send : List (Transaction F) → Channel F → Channel F
  send [] c = c
  send (t ∷ ts) c = if c.is_open then record c { queue = c.queue ++ (t ∷ ts) ∷ [] } else c

  module _ (order : DrainOrder F) where
    unfoldable pub collect_transactions_for_flush :
        ℕ → TransactionBuffer F → List (Transaction F) × TransactionBuffer F
    collect_transactions_for_flush now b = (
      flatten (map (λ e. e.1) (order.drain b.pending)),
      record b { pending = []; total_size = 0; last_flush = now },
    )

    -- The part that the three flushing operations share: collect under the lock, then send.
    unfoldable pub flush : ℕ → BatchManager F → BatchManager F
    flush now self =
        let (ts, b) = collect_transactions_for_flush now self.buffer in
        record self { buffer = b; worker_sender = send ts self.worker_sender }

    unfoldable pub add_transaction : ℕ → Transaction F → BatchManager F → BatchManager F
    add_transaction now t self =
        let pushed = record self { buffer = push_transaction t self.buffer } in
        if should_flush self.config now pushed.buffer then flush now pushed else pushed

    unfoldable pub perform_flush_check : ℕ → BatchManager F → BatchManager F
    perform_flush_check now self =
        if self.buffer.total_size == 0
        then self
        else if should_flush self.config now self.buffer
        then flush now self
        else self

    unfoldable pub force_flush : ℕ → BatchManager F → BatchManager F
    force_flush now self = flush now self

    -- The loop of `start`, until it ends.
    unfoldable pub run_loop : List (Event F) → BatchManager F → BatchManager F
    run_loop [] self = self
    run_loop (add now t ∷ es) self = run_loop es (add_transaction now t self)
    run_loop (force now ∷ es) self = run_loop es (force_flush now self)
    run_loop (tick now ∷ es) self = run_loop es (perform_flush_check now self)
    run_loop (cancelled now ∷ es) self = perform_flush_check now self

    unfoldable pub start : ℕ → List (Event F) → BatchManager F → BatchManager F
    start now es self = run_loop es (perform_flush_check now self)
