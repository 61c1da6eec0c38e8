-- ===== src/Startup/Runs.antt =====
-- A run of the start of src/main.rs: what each part of it leaves in the file.
use chain_data_service.Base.{
  ℕ, suc, String, true, Option, none, some, List, [], ◌∷◌, Result, ok, err, ◌≡◌, refl, sym, ap, ◌∙◌,
  arith, inl, inr, Option-cases, Result-cases,
}
use chain_data_service.Db.Tables.{SqlxError}
use chain_data_service.Db.Schema.{Schema, Ddl, run_ddl}
use chain_data_service.Db.Schema.Runs.{schema_after, schema_after-cons}
use chain_data_service.Startup.{
  Disk, Setup, continue, ◌>>=◌, pure, settle_request, run_request, request, ddl_on, execute,
  execute_all, or_false, is_some, or_empty, database_exists, create_database, create_unless,
  ConnectOptions, Pool, open_file, connect_with, database_url, lift, open_pool,
}

abbrev pub IsCalm : Disk → Type 0
IsCalm d = (n : ℕ) → d.fault n ≡ none

module _ {A B : Type 0} (m : Setup A) (f : A → Setup B) (d : Disk) where
  pub bind-eq : {a : A} {d' : Disk} → m d ≡ (ok a, d') → (m >>= f) d ≡ f a d'
  unfolding ◌>>=◌
  bind-eq e = ap (λ r. continue r.0 f r.1) e

  pub bind-ok :
      {b : B}
      → ((m >>= f) d).0 ≡ ok b
      → (a : A) × (m d ≡ (ok a, (m d).1)) × ((m >>= f) d ≡ f a (m d).1)
  unfolding ◌>>=◌
  bind-ok h = elim (Result-cases (m d).0) [
    | inl (e, failed) ↦ ground (arith, failed, h)
    | inr (a, run) ↦ (a, ap (λ r. (r, (m d).1)) run, ap (λ r. continue r f (m d).1) run)
  ]

execute-ok :
    (c : Ddl) (d : Disk) (s : Schema)
    → d.file ≡ some s
    → (execute c d).0 ≡ ok tt
    → (s' : Schema) × (run_ddl c s ≡ ok s') × ((execute c d).1.file ≡ some s')
unfolding execute request run_request settle_request ddl_on
execute-ok c d s f h = elim (Result-cases (run_ddl c s)) [
  | inl (e, failed) ↦ ground (arith, failed, f, h, Option-cases (d.fault d.issued))
  | inr (s', run) ↦ (s', run, ground (arith, run, f, h, Option-cases (d.fault d.issued)))
]

execute-calm :
    (c : Ddl) (d : Disk) (s s' : Schema)
    → d.fault d.issued ≡ none
    → d.file ≡ some s
    → run_ddl c s ≡ ok s'
    → execute c d ≡ (ok tt, record d { file = some s'; issued = suc d.issued })
unfolding execute request run_request settle_request ddl_on
execute-calm c d s s' calm f h = rw (calm, f, ddl_on, h) refl

pub execute_all-ok :
    (cs : List Ddl) (d : Disk) (s : Schema)
    → d.file ≡ some s
    → (execute_all cs d).0 ≡ ok tt
    → (s' : Schema) × (schema_after cs s ≡ ok s') × ((execute_all cs d).1.file ≡ some s')
unfolding execute_all schema_after pure
execute_all-ok [] d s f h = (s, refl, f)
execute_all-ok (c ∷ cs) d s f h =
    let (u, first, rest) = bind-ok (execute c) (λ _. execute_all cs) d h in
    let (t, run, file) = execute-ok c d s f (ap (λ r. r.0) first) in
    let (s', later, last) =
      execute_all-ok cs (execute c d).1 t file (ap (λ r. r.0) (sym rest) ∙ h) in
    (s', rw run later, ap (λ r. r.1.file) rest ∙ last)

pub execute_all-calm :
    (cs : List Ddl) (d : Disk) (s s' : Schema)
    → IsCalm d
    → d.file ≡ some s
    → schema_after cs s ≡ ok s'
    → (k : ℕ) × (execute_all cs d ≡ (ok tt, record d { file = some s'; issued = k }))
unfolding execute_all schema_after pure
execute_all-calm [] d s s' calm f h =
    (d.issued, ap (λ file. (ok tt, record d { file = file })) (f ∙ ap opened h))
  where
    opened : Result Schema SqlxError → Option Schema
    opened (ok s) = some s
    opened (err e) = none
execute_all-calm (c ∷ cs) d s s' calm f h =
    let (t, run, rest) = schema_after-cons c cs s s' h in
    let d' : Disk = record d { file = some t; issued = suc d.issued } in
    let (k, later) = execute_all-calm cs d' t s' calm refl rest in
    (
      k,
      bind-eq (execute c) (λ _. execute_all cs) d (execute-calm c d s t (calm d.issued) f run)
          ∙ later,
    )

-- A pool that is opened by `m`, on which statements are run.
module _ (m : Setup Pool) (cs : List Ddl) (d : Disk) where
  abbrev with_ddl : Setup Pool
  with_ddl = m >>= λ p. execute_all cs >>= λ _. pure p

  pub with_ddl-ok :
      {b : Pool}
      → (with_ddl d).0 ≡ ok b
      → (p : Pool) × ((m d).0 ≡ ok p)
        × ((s : Schema)
            → (m d).1.file ≡ some s
            → (s' : Schema) × (schema_after cs s ≡ ok s') × ((with_ddl d).1.file ≡ some s'))
  unfolding pure
  with_ddl-ok h =
      let (p, ran, rest) = bind-ok m (λ p. execute_all cs >>= λ _. pure p) d h in
      let (u, all, last) =
        bind-ok (execute_all cs) (λ _. pure p) (m d).1 (ap (λ r. r.0) (sym rest) ∙ h) in
      (
        p,
        ap (λ r. r.0) ran,
        λ s f.
            let (s', after, file) = execute_all-ok cs (m d).1 s f (ap (λ r. r.0) all) in
            (s', after, ap (λ r. r.1.file) (rest ∙ last) ∙ file),
      )

  -- The pool is that of `m`.
  pub with_ddl-pool : {b : Pool} → (with_ddl d).0 ≡ ok b → (m d).0 ≡ ok b
  unfolding pure
  with_ddl-pool h =
      let (p, ran, rest) = bind-ok m (λ p. execute_all cs >>= λ _. pure p) d h in
      let (u, all, last) =
        bind-ok (execute_all cs) (λ _. pure p) (m d).1 (ap (λ r. r.0) (sym rest) ∙ h) in
      ap (λ r. r.0) ran ∙ sym (ap (λ r. r.0) (rest ∙ last)) ∙ h

  pub with_ddl-calm :
      (d' : Disk) (p : Pool) (s s' : Schema)
      → m d ≡ (ok p, d')
      → IsCalm d'
      → d'.file ≡ some s
      → schema_after cs s ≡ ok s'
      → (k : ℕ) × (with_ddl d ≡ (ok p, record d' { file = some s'; issued = k }))
  unfolding pure
  with_ddl-calm d' p s s' ran calm f h =
      let (k, all) = execute_all-calm cs d' s s' calm f h in
      (k, bind-eq m _ d ran ∙ bind-eq (execute_all cs) (λ _. pure p) d' all)

module _ (parse : List ℕ → Result ConnectOptions SqlxError) (var : String → Option String)
    (current_dir : String) where
  -- An open pool has a file, which is empty if there was none.
  pub open_pool-ok :
      (d : Disk) (pool : Pool)
      → (open_pool parse var current_dir d).0 ≡ ok pool
      → (open_pool parse var current_dir d).1.file ≡ some (or_empty d.file)
  unfolding open_pool or_false database_exists create_unless create_database connect_with open_file
      lift request run_request settle_request ◌>>=◌ pure is_some or_empty
  open_pool-ok d pool h = ground (
    arith,
    Option-cases d.file,
    Option-cases (d.fault d.issued),
    Option-cases (d.fault (suc d.issued)),
    Option-cases (d.fault (suc (suc d.issued))),
    Result-cases (parse (database_url var current_dir)),
  )

  pub open_pool-foreign_keys :
      (d : Disk) (pool : Pool)
      → (open_pool parse var current_dir d).0 ≡ ok pool
      → pool.foreign_keys ≡ true
  unfolding open_pool or_false database_exists create_unless create_database connect_with open_file
      lift request run_request settle_request ◌>>=◌ pure is_some or_empty
  open_pool-foreign_keys d pool h = ground (
    arith,
    Option-cases d.file,
    Option-cases (d.fault d.issued),
    Option-cases (d.fault (suc d.issued)),
    Option-cases (d.fault (suc (suc d.issued))),
    Result-cases (parse (database_url var current_dir)),
  )

  pub open_pool-calm :
      (d : Disk) (options : ConnectOptions)
      → IsCalm d
      → parse (database_url var current_dir) ≡ ok options
      → (k : ℕ) × (open_pool parse var current_dir d ≡ (
        ok (record options { create_if_missing = true; wal = true; foreign_keys = true }),
        record d { file = some (or_empty d.file); issued = k },
      ))
  unfolding open_pool or_false database_exists create_unless create_database connect_with open_file
      lift request run_request settle_request ◌>>=◌ pure is_some or_empty
  open_pool-calm d options calm h = elim (Option-cases d.file) [
    | inl e ↦ (
      suc (suc (suc d.issued)),
      ground (arith, e, h, calm d.issued, calm (suc d.issued), calm (suc (suc d.issued))),
    )
    | inr (s, e) ↦ (suc (suc d.issued), ground (arith, e, h, calm d.issued, calm (suc d.issued)))
  ]
