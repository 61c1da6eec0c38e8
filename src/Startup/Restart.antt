-- ===== src/Startup/Restart.antt =====
-- The first steps of `main` in src/main.rs: what the database is after them, and after a restart.
use chain_data_service.Base.{
  ℕ, String, true, Option, some, List, [], ◌∷◌, Result, ok, ◌≡◌, refl, sym, ap, ◌∙◌,
}
use chain_data_service.Db.Tables.{SqlxError}
use chain_data_service.Db.Schema.{Schema, columns_of, init_schema, migrations}
use chain_data_service.Db.Schema.Runs.{
  schema_after, created, or_first, or_first_assoc, columns_of-schema_after, schema_after_again,
}
use chain_data_service.Db.Schema.Compatible.{is_compatible, is_compatible-schema_after}
use chain_data_service.Startup.{
  Disk, run_migrations, or_empty, ConnectOptions, Pool, database_url, open_pool,
  establish_connection, open_database,
}
use chain_data_service.Startup.Runs.{
  IsCalm, with_ddl-ok, with_ddl-calm, with_ddl-pool, open_pool-ok, open_pool-foreign_keys,
  open_pool-calm,
}

abbrev pub tracked_columns : List String
tracked_columns = "address" ∷ "added_at" ∷ []

abbrev pub transaction_columns : List String
transaction_columns =
    "signature" ∷ "block_time" ∷ "slot" ∷ "source_address" ∷ "destination_address" ∷ "amount"
    ∷ "program_id" ∷ "success" ∷ []

module _ (parse : List ℕ → Result ConnectOptions SqlxError) (var : String → Option String)
    (current_dir : String) where
  -- The two runs of statements of a start that succeeded.
  Started : Disk → Schema → Type 0
  Started d s =
      (t : Schema) × (schema_after init_schema (or_empty d.file) ≡ ok t)
      × (schema_after migrations t ≡ ok s)

  open_database-Started :
      (d : Disk) (pool : Pool)
      → (open_database parse var current_dir d).0 ≡ ok pool
      → (s : Schema) × ((open_database parse var current_dir d).1.file ≡ some s) × Started d s
  unfolding Started open_database establish_connection run_migrations
  open_database-Started d pool h =
      let (p, established, migrated) =
        with_ddl-ok (establish_connection parse var current_dir) migrations d h in
      let (q, opened, initialised) =
        with_ddl-ok (open_pool parse var current_dir) init_schema d established in
      let (t, first, file) =
        initialised (or_empty d.file) (open_pool-ok parse var current_dir d q opened) in
      let (s, second, last) = migrated t file in (s, last, (t, first, second))

  Started-columns :
      (n : String) (d : Disk) (s : Schema)
      → Started d s
      → columns_of n s.tables
        ≡ or_first
            (columns_of n (or_empty d.file).tables)
            (or_first (created n init_schema) (created n migrations))
  unfolding Started
  Started-columns n d s (t, first, second) =
      columns_of-schema_after n migrations t s second
      ∙ ap (λ o. or_first o (created n migrations))
          (columns_of-schema_after n init_schema (or_empty d.file) t first)
      ∙ or_first_assoc (columns_of n (or_empty d.file).tables) (created n init_schema)
          (created n migrations)

  -- When the start of the program opens the database, whatever the file held, each of the two
  -- tables has the columns that it had before, and if it was not there, exactly those that
  -- `INIT_SCHEMA` gives it: the columns of the migrations, which come later, are never used.
  pub open_database-columns :
      (d : Disk) (pool : Pool)
      → (open_database parse var current_dir d).0 ≡ ok pool
      → (s : Schema) × ((open_database parse var current_dir d).1.file ≡ some s)
        × (columns_of "tracked_addresses" s.tables
            ≡ or_first
                (columns_of "tracked_addresses" (or_empty d.file).tables)
                (some tracked_columns))
        × (columns_of "transactions" s.tables
            ≡ or_first
                (columns_of "transactions" (or_empty d.file).tables)
                (some transaction_columns))
  unfolding created
  open_database-columns d pool h =
      let (s, file, started) = open_database-Started d pool h in
      (
        s,
        file,
        Started-columns "tracked_addresses" d s started,
        Started-columns "transactions" d s started,
      )

  -- The pool has foreign keys on.
  pub open_database-foreign_keys :
      (d : Disk) (pool : Pool)
      → (open_database parse var current_dir d).0 ≡ ok pool
      → pool.foreign_keys ≡ true
  unfolding open_database establish_connection run_migrations
  open_database-foreign_keys d pool h = open_pool-foreign_keys parse var current_dir d pool (
      with_ddl-pool (open_pool parse var current_dir) init_schema d
        (with_ddl-pool (establish_connection parse var current_dir) migrations d h))

  -- A restart with no failure, after a start that opened the database, opens it again and leaves
  -- its tables and indexes as they are.
  pub open_database_again :
      (d d' : Disk) (pool : Pool) (options : ConnectOptions)
      → (open_database parse var current_dir d).0 ≡ ok pool
      → d'.file ≡ (open_database parse var current_dir d).1.file
      → IsCalm d'
      → parse (database_url var current_dir) ≡ ok options
      → (pool' : Pool) × (k : ℕ) × (open_database parse var current_dir d'
          ≡ (ok pool', record d' { issued = k }))
  unfolding Started open_database establish_connection run_migrations schema_after
  open_database_again d d' pool options h same calm parsed =
      let (s, file, (t, first, second)) = open_database-Started d pool h in
      let (j, opens) = open_pool-calm parse var current_dir d' options calm parsed in
      let e = same ∙ file in
      let (k, established) =
        with_ddl-calm (open_pool parse var current_dir) init_schema d' _ _ s s opens calm
          (ap (λ f. some (or_empty f)) e)
          (schema_after_again init_schema migrations (or_empty d.file) t s first second) in
      let (l, migrated) =
        with_ddl-calm (establish_connection parse var current_dir) migrations d' _ _ s s established
          calm refl (schema_after_again migrations [] t s s second refl) in
      (
        record options { create_if_missing = true; wal = true; foreign_keys = true },
        l,
        migrated
            ∙ ap
                (λ f. (
                  ok (record options { create_if_missing = true; wal = true; foreign_keys = true }),
                  record d' { file = f; issued = l },
                ))
                (sym e),
      )

  -- With no failure, and an address of the database that can be read, the start opens the database,
  -- with foreign keys on, whenever its table of transactions, if the file has one, has the columns
  -- that the indexes name.
  pub open_database-total :
      (d : Disk) (options : ConnectOptions)
      → IsCalm d
      → parse (database_url var current_dir) ≡ ok options
      → is_compatible (or_empty d.file) ≡ true
      → (pool : Pool) × ((open_database parse var current_dir d).0 ≡ ok pool)
        × (pool.foreign_keys ≡ true)
  unfolding open_database establish_connection run_migrations
  open_database-total d options calm parsed h =
      let (j, opens) = open_pool-calm parse var current_dir d options calm parsed in
      let (t, s, first, second) = is_compatible-schema_after (or_empty d.file) h in
      let (k, established) =
        with_ddl-calm (open_pool parse var current_dir) init_schema d _ _ (or_empty d.file) t opens
          calm refl first in
      let (l, migrated) =
        with_ddl-calm (establish_connection parse var current_dir) migrations d _ _ t s established
          calm refl second in
      (
        record options { create_if_missing = true; wal = true; foreign_keys = true },
        ap (λ r. r.0) migrated,
        refl,
      )
