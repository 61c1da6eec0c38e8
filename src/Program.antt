-- ===== src/Program.antt =====
-- src/main.rs as a whole, over the parts that it starts, and `AppState` of src/state.rs. What it
-- asks of the operating system is the record `Machine`; the tasks that it spawns are those of
-- Blockchain.System, and the server is the router of Api.Router.
pub mod Ready
pub mod Life
use chain_data_service.Base.{ℕ, String, Option, List, Result, ok, err}
use chain_data_service.Config.{Config, from_env}
use chain_data_service.Cache.Address.{AppCache, init_cache}
use chain_data_service.Db.Tables.{SqlxError, Db}
use chain_data_service.Db.Exec.{World}
use chain_data_service.Startup.{
  Disk, ConnectOptions, Pool, open_database, worker_count, listen_address,
}
use chain_data_service.Blockchain.System.{System, launch}
use chain_data_service.Api.Router.{Outside, State}
use chain_data_service.Shutdown.{Task, exit_time}

pub record AppState {F : Type 0} (o : Outside F) : Type 0 where
  pub config : Config
  pub db_pool : Pool
  pub cache : AppCache o.pages o.flags

pub record Machine : Type 0 where
  pub var : String → Option String
  pub current_dir : String
  pub num_cpus : ℕ
  -- The clock when the tasks start.
  pub now : ℕ
  -- `SqliteConnectOptions::from_str`
  pub parse : List ℕ → Result ConnectOptions SqlxError
  -- `TcpListener::bind`, which fails with a text.
  pub bind : List ℕ → Result (Unit {0}) String

-- What makes `main` return an error.
pub data StartError : Type 0 where
  no_database : SqlxError → StartError
  no_listener : String → StartError

-- The program once it serves.
pub record Server {F : Type 0} (o : Outside F) : Type 0 where
  pub state : AppState o
  pub tasks : System F

module _ {F : Type 0} (o : Outside F) (machine : Machine) where
  open machine use {var, current_dir, num_cpus, now, parse, bind}

  -- The state that the tasks and the handlers share.
  unfoldable pub app_state : Pool → AppState o
  unfolding from_env init_cache
  app_state pool = record {
    config = from_env var;
    db_pool = pool;
    cache = init_cache o.pages o.flags (from_env var);
  }

  -- From the tasks to the listener.
  unfoldable pub listen : Pool → Result (Unit {0}) String → Result (Server o) StartError
  unfolding worker_count
  listen pool (err e) = err (no_listener e)
  listen pool (ok u) =
      ok
        (record { state = app_state pool; tasks = launch (worker_count var num_cpus) num_cpus now })

  unfoldable pub start_with : Result Pool SqlxError → Result (Server o) StartError
  unfolding listen_address
  start_with (err e) = err (no_database e)
  start_with (ok pool) = listen pool (bind (listen_address (from_env var)))

  -- `main` until it waits for the signal.
  unfoldable pub start : Disk → Result (Server o) StartError × Disk
  start d = let (opened, d') = open_database parse var current_dir d in (start_with opened, d')

  unfoldable pub finish_with :
      (Task → Option ℕ) → Result (Server o) StartError → Result ℕ StartError
  unfolding exit_time
  finish_with finish (err e) = err e
  finish_with finish (ok server) = ok (exit_time finish)

  -- `main`, with the milliseconds from the signal to its end, when the tasks finish as they do.
  unfoldable pub main : (Task → Option ℕ) → Disk → Result ℕ StartError × Disk
  main finish d = let (started, d') = start d in (finish_with finish started, d')

-- What a request finds: the shared cache, and the tables with the statements that fail.
unfoldable pub world_of :
    {F : Type 0} (o : Outside F) → Server o → Db F → (ℕ → Option SqlxError) → State o
world_of o server db fault = record {
  db = db;
  fault = fault;
  issued = 0;
  cache = (server.state).cache;
}
