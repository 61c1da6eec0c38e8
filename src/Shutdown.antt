-- ===== src/Shutdown.antt =====
-- The end of `main` in src/main.rs: from the cancellation on, it awaits four tasks in turn, each
-- for ten seconds at most. Times are milliseconds after the cancellation.
use chain_data_service.Base.{
  ℕ, ◌+◌, ◌≤◌, Option, none, some, List, [], ◌∷◌, ◌≡◌, arith, leb, if◌then◌else◌,
}

pub data Task : Type 0 where
  batch : Task
  polling : Task
  server : Task
  worker_pool : Task

abbrev pub shutdown_timeout : ℕ
shutdown_timeout = 10000

-- `tokio::select!` of a sleep and the handle of a task that finishes at some time, or never: when
-- it returns, if it was reached at the time `now`.
unfoldable pub select_at : ℕ → Option ℕ → ℕ
select_at now none = now + shutdown_timeout
select_at now (some finish) =
    if leb finish now
    then now
    else if leb finish (now + shutdown_timeout)
    then finish
    else now + shutdown_timeout

unfoldable pub await_all : (Task → Option ℕ) → List Task → ℕ → ℕ
unfolding select_at
await_all finish [] now = now
await_all finish (t ∷ ts) now = await_all finish ts (select_at now (finish t))

-- When `main` returns.
unfoldable pub exit_time : (Task → Option ℕ) → ℕ
unfolding await_all
exit_time finish = await_all finish (batch ∷ polling ∷ server ∷ worker_pool ∷ []) 0

select_at-bounds :
    (now : ℕ) (finish : Option ℕ)
    → (now ≤ select_at now finish) × (select_at now finish ≤ now + shutdown_timeout)
unfolding select_at
select_at-bounds now none = (ground arith, ground arith)
select_at-bounds now (some n) = (ground arith, ground arith)

select_at-awaits :
    (now : ℕ) (finish : Option ℕ) (n : ℕ)
    → finish ≡ some n
    → n ≤ shutdown_timeout
    → n ≤ select_at now finish
unfolding select_at
select_at-awaits now none n e h = ground arith
select_at-awaits now (some m) n e h = ground arith

select_at-le :
    (now : ℕ) (finish : Option ℕ) (n : ℕ)
    → (m : ℕ) × (finish ≡ some m) × (m ≤ n)
    → now ≤ n
    → select_at now finish ≤ n
unfolding select_at
select_at-le now none n (m, e, k) h = ground arith
select_at-le now (some f) n (m, e, k) h = ground arith

module _ (finish : Task → Option ℕ) where
  abbrev after_batch : ℕ
  after_batch = select_at 0 (finish batch)

  abbrev after_polling : ℕ
  after_polling = select_at after_batch (finish polling)

  abbrev after_server : ℕ
  after_server = select_at after_polling (finish server)

  exit_time-le : exit_time finish ≤ 40000
  unfolding exit_time
  exit_time-le = omega (
    arith,
    select_at-bounds 0 (finish batch),
    select_at-bounds after_batch (finish polling),
    select_at-bounds after_polling (finish server),
    select_at-bounds after_server (finish worker_pool),
  )

  exit_time-awaits :
      (t : Task) (n : ℕ) → finish t ≡ some n → n ≤ shutdown_timeout → n ≤ exit_time finish
  unfolding exit_time
  exit_time-awaits batch n e h = omega (
    arith,
    select_at-awaits 0 (finish batch) n e h,
    select_at-bounds after_batch (finish polling),
    select_at-bounds after_polling (finish server),
    select_at-bounds after_server (finish worker_pool),
  )
  exit_time-awaits polling n e h = omega (
    arith,
    select_at-awaits after_batch (finish polling) n e h,
    select_at-bounds after_polling (finish server),
    select_at-bounds after_server (finish worker_pool),
  )
  exit_time-awaits server n e h = omega (
    arith,
    select_at-awaits after_polling (finish server) n e h,
    select_at-bounds after_server (finish worker_pool),
  )
  exit_time-awaits worker_pool n e h = select_at-awaits after_server (finish worker_pool) n e h

  exit_time-prompt :
      (n : ℕ) → ((t : Task) → (m : ℕ) × (finish t ≡ some m) × (m ≤ n)) → exit_time finish ≤ n
  unfolding exit_time
  exit_time-prompt n f =
      let first = select_at-le 0 (finish batch) n (f batch) (omega arith) in
      let second = select_at-le after_batch (finish polling) n (f polling) first in
      let third = select_at-le after_polling (finish server) n (f server) second in
      select_at-le after_server (finish worker_pool) n (f worker_pool) third

  -- `main` returns at the latest forty seconds after the cancellation; not before a task that
  -- finishes within ten seconds of the cancellation has finished; and as soon as all have finished,
  -- if that is within ten seconds.
  pub exit_time-bounds :
      (exit_time finish ≤ 40000)
      × ((t : Task) (n : ℕ) → finish t ≡ some n → n ≤ shutdown_timeout → n ≤ exit_time finish)
      × ((n : ℕ)
          → n ≤ shutdown_timeout
          → ((t : Task) → (m : ℕ) × (finish t ≡ some m) × (m ≤ n))
          → exit_time finish ≤ n)
  exit_time-bounds = (exit_time-le, exit_time-awaits, λ n h. exit_time-prompt n)
