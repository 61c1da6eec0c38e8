-- ===== src/Startup.antt =====
-- src/db/connection.rs, src/db/migration.rs and the start of src/main.rs. The file of the database
-- is a `Schema`, and the n-th request of the program to the engine fails with `fault n` if that is
-- an error.
pub mod Runs
pub mod Restart
use mathlib.Core.Option
use mathlib.Core.Option.{get_or}
use chain_data_service.Base.{
  ℕ, suc, String, Bool, true, false, Option, none, some, List, [], ◌∷◌, ◌++◌, Result, ok, err, not,
  ◌&&◌, ◌||◌, if◌then◌else◌, str_eq, mem, from_str_unsigned, display, pos, codes,
}
use chain_data_service.Config.{Config, u64_max}
use chain_data_service.Db.Tables.{SqlxError, engine}
use chain_data_service.Db.Schema.{Schema, Ddl, init_schema, migrations, run_ddl}

-- The file of the database, if there is one.
pub record Disk : Type 0 where
  pub file : Option Schema
  pub fault : ℕ → Option SqlxError
  pub issued : ℕ

abbrev pub Setup : Type 0 → Type 0
Setup A = Disk → Result A SqlxError × Disk

module _ {A B : Type 0} where
  unfoldable pub continue : Result A SqlxError → (A → Setup B) → Setup B
  continue (ok a) f d = f a d
  continue (err e) f d = (err e, d)

  infixl 5 ◌>>=◌ ◌>>◌
  unfoldable pub ◌>>=◌ : Setup A → (A → Setup B) → Setup B
  unfolding continue
  ◌>>=◌ m f d = let (r, d') = m d in continue r f d'

  abbrev pub ◌>>◌ : Setup A → Setup B → Setup B
  m >> k = m >>= λ _. k

unfoldable pub pure : {A : Type 0} → A → Setup A
pure a d = (ok a, d)

-- The outcome of a request that the engine takes.
unfoldable pub settle_request : {A : Type 0} → Result (A × Option Schema) SqlxError → Setup A
settle_request (ok (a, file')) d = (ok a, record d { file = file'; issued = suc d.issued })
settle_request (err e) d = (err e, record d { issued = suc d.issued })

unfoldable pub run_request :
    {A : Type 0}
    → Option SqlxError
    → (Option Schema → Result (A × Option Schema) SqlxError)
    → Setup A
unfolding settle_request
run_request none f d = settle_request (f d.file) d
run_request (some e) f d = (err e, record d { issued = suc d.issued })

unfoldable pub request :
    {A : Type 0} → (Option Schema → Result (A × Option Schema) SqlxError) → Setup A
unfolding run_request
request f d = run_request (d.fault d.issued) f d

-- A statement of the schema on an open database.
unfoldable pub ddl_on : Ddl → Option Schema → Result (Unit {0} × Option Schema) SqlxError
unfolding run_ddl
ddl_on c none = err (engine "unable to open database file")
ddl_on c (some s) = elim (run_ddl c s) [ ok s' ↦ ok (tt, some s') | err e ↦ err e ]

unfoldable pub execute : Ddl → Setup (Unit {0})
unfolding request ddl_on
execute c = request (ddl_on c)

unfoldable pub execute_all : List Ddl → Setup (Unit {0})
unfolding execute
execute_all [] = pure tt
execute_all (c ∷ cs) = do execute c; execute_all cs

-- `migration::run_migrations`
unfoldable pub run_migrations : Setup (Unit {0})
unfolding execute_all
run_migrations = execute_all migrations

-- `unwrap_or(false)` of a request.
unfoldable pub or_false : Setup Bool → Setup Bool
or_false m d = let (r, d') = m d in (elim r [ ok b ↦ ok b | err e ↦ ok false ], d')

unfoldable pub is_some : Option Schema → Bool
is_some none = false
is_some (some s) = true

abbrev pub no_tables : Schema
no_tables = record { tables = []; indexes = [] }

unfoldable pub or_empty : Option Schema → Schema
or_empty none = no_tables
or_empty (some s) = s

unfoldable pub database_exists : Setup Bool
unfolding request is_some
database_exists = request (λ file. ok (is_some file, file))

unfoldable pub create_database : Setup (Unit {0})
unfolding request or_empty
create_database = request (λ file. ok (tt, some (or_empty file)))

-- What the program asks of a connection, and the path that `from_str` reads.
pub record ConnectOptions : Type 0 where
  pub path : List ℕ
  pub create_if_missing : Bool
  pub wal : Bool
  pub foreign_keys : Bool

abbrev pub Pool : Type 0
Pool = ConnectOptions

unfoldable pub open_file : ConnectOptions → Option Schema → Result (Pool × Option Schema) SqlxError
unfolding or_empty
open_file options file =
    if options.create_if_missing || is_some file
    then ok (options, some (or_empty file))
    else err (engine "unable to open database file")

unfoldable pub connect_with : ConnectOptions → Setup Pool
unfolding request open_file
connect_with options = request (open_file options)

-- `DATABASE_URL`, or a file in the current directory.
unfoldable pub database_url : (String → Option String) → String → List ℕ
database_url var current_dir = elim (var "DATABASE_URL") [
  | some url ↦ codes url
  | none ↦ codes "sqlite:" ++ (codes current_dir ++ codes "/data.db")
]

unfoldable pub lift : {A : Type 0} → Result A SqlxError → Setup A
lift r d = (r, d)

unfoldable pub create_unless : Bool → Setup (Unit {0})
unfolding create_database
create_unless true = pure tt
create_unless false = create_database

module _ (parse : List ℕ → Result ConnectOptions SqlxError) where
  -- `parse` is `SqliteConnectOptions::from_str`.
  unfoldable pub open_pool : (String → Option String) → String → Setup Pool
  unfolding database_url or_false database_exists create_unless connect_with lift
  open_pool var current_dir = do
    found ← or_false database_exists
    create_unless found
    options ← lift (parse (database_url var current_dir))
    connect_with (record options { create_if_missing = true; wal = true; foreign_keys = true })

  unfoldable pub establish_connection : (String → Option String) → String → Setup Pool
  unfolding open_pool execute_all
  establish_connection var current_dir = do
    pool ← open_pool var current_dir
    execute_all init_schema
    pure pool

  -- The first steps of `main`.
  unfoldable pub open_database : (String → Option String) → String → Setup Pool
  unfolding establish_connection run_migrations
  open_database var current_dir = do
    pool ← establish_connection var current_dir
    run_migrations
    pure pool

-- `WORKER_COUNT`, or the number of processors.
unfoldable pub worker_count : (String → Option String) → ℕ → ℕ
worker_count var cpus = elim (var "WORKER_COUNT") [
  | none ↦ cpus
  | some text ↦ get_or (from_str_unsigned u64_max text) cpus
]

-- The address that the server listens on.
unfoldable pub listen_address : Config → List ℕ
listen_address config = codes config.server_host ++ (b':' ∷ display (pos config.server_port))
