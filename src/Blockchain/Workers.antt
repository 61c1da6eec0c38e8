-- ===== src/Blockchain/Workers.antt =====
-- src/blockchain/worker_pool.rs: the channel of batches and the workers that share its receiver. A
-- step is one event of one task. The receiver's mutex is held during `recv`, so that one worker at
-- a time takes a batch; which one, and when, is left open. `taken` and `finished` record what was
-- received and processed.
pub mod Order
pub mod Drain
pub mod Live
use chain_data_service.Base.{
  ℕ, zero, suc, ◌<◌, Option, none, some, List, [], ◌∷◌, ◌++◌, ◌≡◌, ◌≢◌, length,
}

pub data Worker (B : Type 0) : Type 0 where
  waiting : Worker B
  busy : B → Worker B
  stopped : Worker B

pub record Pool (B : Type 0) : Type 0 where
  pub queue : List B
  -- The clones of the sender that are left.
  pub senders : ℕ
  pub workers : List (Worker B)
  pub taken : List B
  pub finished : List B

-- `mpsc::channel(1000)`
abbrev pub capacity : ℕ
capacity = 1000

module _ {B : Type 0} where
  unfoldable pub spawn : ℕ → List (Worker B)
  spawn zero = []
  spawn (suc n) = waiting ∷ spawn n

  -- `WorkerPool::new`
  unfoldable pub new : ℕ → Pool B
  unfolding spawn
  new worker_count = record {
    queue = [];
    senders = 1;
    workers = spawn worker_count;
    taken = [];
    finished = [];
  }

  -- What the tasks do: a send, which waits while the channel is full and fails when there is no
  -- worker; a clone of the sender and its end; and in a worker, the receipt of a batch, the end of
  -- its processing, and the end of the loop when the channel is closed and empty.
  pub data Step : Pool B → Pool B → Type 0 where
    send :
        {p : Pool B} (b : B)
        → zero < p.senders
        → p.workers ≢ []
        → length p.queue < capacity
        → Step p (record p { queue = p.queue ++ b ∷ [] })
    get_sender : {p : Pool B} → zero < p.senders → Step p (record p { senders = suc p.senders })
    drop_sender : {p : Pool B} (n : ℕ) → p.senders ≡ suc n → Step p (record p { senders = n })
    receive :
        {p : Pool B} (before after : List (Worker B)) (b : B) (rest : List B)
        → p.workers ≡ before ++ waiting ∷ after
        → p.queue ≡ b ∷ rest
        → Step p (record p {
          queue = rest;
          workers = before ++ busy b ∷ after;
          taken = p.taken ++ b ∷ [];
        })
    finish :
        {p : Pool B} (before after : List (Worker B)) (b : B)
        → p.workers ≡ before ++ busy b ∷ after
        → Step p (record p { workers = before ++ waiting ∷ after; finished = p.finished ++ b ∷ [] })
    stop :
        {p : Pool B} (before after : List (Worker B))
        → p.workers ≡ before ++ waiting ∷ after
        → p.queue ≡ []
        → p.senders ≡ zero
        → Step p (record p { workers = before ++ stopped ∷ after })

  pub data Steps : Pool B → Pool B → Type 0 where
    here : {p : Pool B} → Steps p p
    next : {p q r : Pool B} → Steps p q → Step q r → Steps p r

  -- The batches that were sent, in order.
  unfoldable pub sent_in : {p q : Pool B} → Step p q → List B
  sent_in (send b open_ alive room) = b ∷ []
  sent_in (get_sender open_) = []
  sent_in (drop_sender n e) = []
  sent_in (receive before after b rest w q) = []
  sent_in (finish before after b w) = []
  sent_in (stop before after w q s) = []

  unfoldable pub sent : {p q : Pool B} → Steps p q → List B
  unfolding sent_in
  sent here = []
  sent (next rest step) = sent rest ++ sent_in step
