-- ===== src/Program/Ready.antt =====
-- What src/main.rs has brought about when it serves.
use chain_data_service.Base.{ℕ, Option, Result, ok, err, ◌≡◌, refl, ◌≤◌, arith}
use chain_data_service.Config.{Config}
use chain_data_service.Cache.Transaction
use chain_data_service.Db.Schema.{Schema}
use chain_data_service.Startup.{Disk}
use chain_data_service.Api.Router.{Outside}
use chain_data_service.Shutdown.{Task, exit_time-bounds}
use chain_data_service.Program.{Machine, Server, StartError, start, finish_with, main}

module _ {F : Type 0} (o : Outside F) (machine : Machine) where
  open machine use {var, current_dir, num_cpus, now, parse}

  finish_with-ok :
      (finish : Task → Option ℕ) (r : Result (Server o) StartError) (n : ℕ)
      → finish_with o machine finish r ≡ ok n
      → (s : Server o) × (r ≡ ok s) × (n ≤ 40000)
  unfolding finish_with
  finish_with-ok finish (err e) n k = absurd (ground (arith, k))
  finish_with-ok finish (ok s) n k = (s, refl, ground (arith, k, (exit_time-bounds finish).0))

  -- When main returns with no error, it had been serving, and it returns at most forty seconds after
  -- the signal.
  pub main-ok :
      (finish : Task → Option ℕ) (d : Disk) (n : ℕ)
      → (main o machine finish d).0 ≡ ok n
      → (s : Server o) × ((start o machine d).0 ≡ ok s) × (n ≤ 40000)
  unfolding main
  main-ok finish d n h = finish_with-ok finish (start o machine d).0 n h
