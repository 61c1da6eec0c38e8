-- ===== src/Blockchain/System/Sending.antt =====
-- A batch manager of src/blockchain/batch_manager.rs and the pool of src/blockchain/worker_pool.rs
-- whose channel it sends to, in small steps: a section under the lock of the buffer, and then the
-- `send` of what was collected, which waits while the channel is full.
use chain_data_service.Base.{
  ℕ, suc, ◌<◌, List, [], ◌∷◌, ◌++◌, ◌≡◌, ◌≢◌, length, true, if◌then◌else◌, ◌==◌,
}
use chain_data_service.Models.{Transaction}
use chain_data_service.Blockchain.Batch.{
  DrainOrder, TransactionBuffer, BatchConfig, BatchManager, Channel, push_transaction, should_flush,
  collect_transactions_for_flush,
}
use chain_data_service.Blockchain.Batch
use chain_data_service.Blockchain.Workers.{Pool, Step, capacity, sent_in}
use chain_data_service.Blockchain.Workers

pub record Side (F : Type 0) : Type 0 where
  pub buffer : TransactionBuffer F
  pub config : BatchConfig
  -- Collected, and not in the channel yet.
  pub sending : List (Transaction F)
  -- Collected, and refused by the channel.
  pub lost : List (Transaction F)
  pub pool : Pool (List (Transaction F))

module _ {F : Type 0} where
  -- `WorkerPool::new`, `get_sender` and `BatchManager::new`.
  unfoldable pub open_side : ℕ → BatchConfig → ℕ → Side F
  unfolding Workers.new
  open_side now config worker_count =
      let made = Batch.new now config (record { is_open = true; queue = [] }) in
      let pool = Workers.new worker_count in
      record {
        buffer = made.buffer;
        config = config;
        sending = [];
        lost = [];
        pool = record pool { senders = suc pool.senders };
      }

  -- The manager has nothing on its way to the channel.
  abbrev pub IsIdle : Side F → Type 0
  IsIdle s = s.sending ≡ []

  module _ (order : DrainOrder F) where
    unfoldable pub collect : ℕ → Side F → Side F
    unfolding collect_transactions_for_flush
    collect now s =
        let (ts, b) = collect_transactions_for_flush order now s.buffer in
        record s { buffer = b; sending = ts }

    -- The section of `perform_flush_check` under the lock.
    unfoldable pub check_section : ℕ → Side F → Side F
    unfolding collect should_flush
    check_section now s =
        if s.buffer.total_size == 0
        then s
        else if should_flush s.config now s.buffer
        then collect now s
        else s

    -- The section of `add_transaction` under the lock.
    unfoldable pub add_section : ℕ → Transaction F → Side F → Side F
    unfolding collect should_flush push_transaction
    add_section now t s =
        let pushed = record s { buffer = push_transaction t s.buffer } in
        if should_flush s.config now pushed.buffer then collect now pushed else pushed

  -- What happens without a call of the manager: the batch enters the channel, or is refused since
  -- no worker holds the receiver; or an event of the pool that sends nothing, where it is left open
  -- when a sender is dropped.
  pub data Progress : Side F → Side F → Type 0 where
    deliver :
        {s : Side F}
        → s.sending ≢ []
        → s.pool.workers ≢ []
        → length s.pool.queue < capacity
        → Progress s (
            let pool = s.pool in
            record s { sending = []; pool = record pool { queue = pool.queue ++ s.sending ∷ [] } })
    refuse :
        {s : Side F}
        → s.sending ≢ []
        → s.pool.workers ≡ []
        → Progress s (record s { sending = []; lost = s.lost ++ s.sending })
    work :
        {s : Side F} {q : Pool (List (Transaction F))} (step : Step s.pool q)
        → sent_in step ≡ []
        → Progress s (record s { pool = q })
