-- ===== src/Db/Schema/Runs.antt =====
-- A run of statements of the schema of src/db.
use chain_data_service.Base.{
  String, Bool, true, false, Option, none, some, List, [], ◌∷◌, ◌++◌, ◌≡◌, refl, sym, ap, ◌∙◌,
  arith, inl, inr, Result, ok, ◌>>=◌, ◌||◌, if◌then◌else◌, str_eq, eq_iff, Option-cases, Bool-cases,
  Result-cases, All,
}
use chain_data_service.Db.Tables.{SqlxError}
use chain_data_service.Db.Schema.{
  Table, Index, Schema, Ddl, create_table, create_index, columns_of, has_index, run_ddl,
}

unfoldable pub schema_after : List Ddl → Schema → Result Schema SqlxError
schema_after [] s = ok s
schema_after (c ∷ cs) s = run_ddl c s >>= schema_after cs

-- The columns with which a run of statements creates a table.
unfoldable pub created : String → List Ddl → Option (List String)
created n [] = none
created n (create_table t ∷ cs) = if str_eq t.name n then some t.columns else created n cs
created n (create_index i ∷ cs) = created n cs

abbrev pub or_first : Option (List String) → Option (List String) → Option (List String)
or_first none o = o
or_first (some cs) o = some cs

pub or_first_assoc :
    (a b c : Option (List String)) → or_first (or_first a b) c ≡ or_first a (or_first b c)
or_first_assoc none b c = refl
or_first_assoc (some a) b c = refl

columns_of-snoc :
    (n : String) (ts : List Table) (t : Table)
    → columns_of n (ts ++ t ∷ [])
      ≡ or_first (columns_of n ts) (if str_eq t.name n then some t.columns else none)
unfolding columns_of
columns_of-snoc n [] t = refl
columns_of-snoc n (u ∷ ts) t = elim (Bool-cases (str_eq u.name n)) [
  | inl e ↦ rw e refl
  | inr e ↦ rw e (columns_of-snoc n ts t)
]

pub columns_of-run_ddl :
    (n : String) (c : Ddl) (s s' : Schema)
    → run_ddl c s ≡ ok s'
    → columns_of n s'.tables ≡ or_first (columns_of n s.tables) (created n (c ∷ []))
unfolding run_ddl created
columns_of-run_ddl n (create_table t) s s' h = elim (Option-cases (columns_of t.name s.tables)) [
  | inl e ↦ ground (arith, e, columns_of-snoc n s.tables t)
  | inr (cs, e) ↦ ground (arith, e, eq_iff t.name n, Option-cases (columns_of n s.tables))
]
columns_of-run_ddl n (create_index i) s s' h = ground (arith, Option-cases (columns_of n s.tables))

created-cons :
    (n : String) (c : Ddl) (cs : List Ddl)
    → created n (c ∷ cs) ≡ or_first (created n (c ∷ [])) (created n cs)
unfolding created
created-cons n (create_table t) cs = ground (arith, Bool-cases (str_eq t.name n))
created-cons n (create_index i) cs = refl

pub schema_after-cons :
    (c : Ddl) (cs : List Ddl) (s s' : Schema)
    → schema_after (c ∷ cs) s ≡ ok s'
    → (t : Schema) × (run_ddl c s ≡ ok t) × (schema_after cs t ≡ ok s')
unfolding schema_after
schema_after-cons c cs s s' h = elim (Result-cases (run_ddl c s)) [
  | inl (e, failed) ↦ ground (arith, failed)
  | inr (t, run) ↦ (t, run, ground (arith, run))
]

-- A table that is there keeps its columns, and one that is not gets those of the first statement
-- that creates it.
pub columns_of-schema_after :
    (n : String) (cs : List Ddl) (s s' : Schema)
    → schema_after cs s ≡ ok s'
    → columns_of n s'.tables ≡ or_first (columns_of n s.tables) (created n cs)
unfolding schema_after created
columns_of-schema_after n [] s s' h = ground (arith, Option-cases (columns_of n s.tables))
columns_of-schema_after n (c ∷ cs) s s' h =
    let (t, run, rest) = schema_after-cons c cs s s' h in
    columns_of-schema_after n cs t s' rest
    ∙ ap (λ o. or_first o (created n cs)) (columns_of-run_ddl n c s t run)
    ∙ or_first_assoc (columns_of n s.tables) (created n (c ∷ [])) (created n cs)
    ∙ ap (or_first (columns_of n s.tables)) (sym (created-cons n c cs))

-- What a statement asks for is there.
unfoldable is_done : Ddl → Schema → Bool
unfolding columns_of has_index
is_done (create_table t) s = elim (columns_of t.name s.tables) [ none ↦ false | some cs ↦ true ]
is_done (create_index i) s = has_index i.name s.indexes

run_ddl_again : (c : Ddl) (s : Schema) → is_done c s ≡ true → run_ddl c s ≡ ok s
unfolding run_ddl is_done
run_ddl_again (create_table t) s h = ground (arith, Option-cases (columns_of t.name s.tables))
run_ddl_again (create_index i) s h = ground arith

has_index-snoc :
    (n : String) (is : List Index) (i : Index)
    → has_index n (is ++ i ∷ []) ≡ (has_index n is || str_eq i.name n)
unfolding has_index
has_index-snoc n [] i = ground arith
has_index-snoc n (j ∷ is) i = ground (arith, has_index-snoc n is i)

run_ddl-is_done : (c : Ddl) (s s' : Schema) → run_ddl c s ≡ ok s' → is_done c s' ≡ true
unfolding run_ddl is_done
run_ddl-is_done (create_table t) s s' h = ground (
  arith,
  Option-cases (columns_of t.name s.tables),
  columns_of-snoc t.name s.tables t,
  eq_iff t.name t.name,
)
run_ddl-is_done (create_index i) s s' h =
    ground (arith, has_index-snoc i.name s.indexes i, eq_iff i.name i.name)

is_done_kept :
    (b c : Ddl) (s s' : Schema) → run_ddl c s ≡ ok s' → is_done b s ≡ true → is_done b s' ≡ true
unfolding run_ddl is_done
is_done_kept (create_table u) (create_table t) s s' h k = ground (
  arith,
  Option-cases (columns_of t.name s.tables),
  Option-cases (columns_of u.name s.tables),
  columns_of-snoc u.name s.tables t,
)
is_done_kept (create_table u) (create_index i) s s' h k = ground arith
is_done_kept (create_index j) (create_table t) s s' h k =
    ground (arith, Option-cases (columns_of t.name s.tables))
is_done_kept (create_index j) (create_index i) s s' h k =
    ground (arith, has_index-snoc j.name s.indexes i)

is_done-kept_all :
    (b : Ddl) (cs : List Ddl) (s s' : Schema)
    → schema_after cs s ≡ ok s'
    → is_done b s ≡ true
    → is_done b s' ≡ true
unfolding schema_after
is_done-kept_all b [] s s' h k = ground (arith, h, k)
is_done-kept_all b (c ∷ cs) s s' h k =
    let (t, run, rest) = schema_after-cons c cs s s' h in
    is_done-kept_all b cs t s' rest (is_done_kept b c s t run k)

AllDone : List Ddl → Schema → Type 0
AllDone cs s = All (λ c. is_done c s ≡ true) cs

schema_after-AllDone : (cs : List Ddl) (s s' : Schema) → schema_after cs s ≡ ok s' → AllDone cs s'
unfolding AllDone
schema_after-AllDone [] s s' h = tt
schema_after-AllDone (c ∷ cs) s s' h =
    let (t, run, rest) = schema_after-cons c cs s s' h in
    (is_done-kept_all c cs t s' rest (run_ddl-is_done c s t run), schema_after-AllDone cs t s' rest)

AllDone-schema_after : (cs : List Ddl) (s : Schema) → AllDone cs s → schema_after cs s ≡ ok s
unfolding AllDone schema_after
AllDone-schema_after [] s d = refl
AllDone-schema_after (c ∷ cs) s (d, ds) = rw (run_ddl_again c s d) (AllDone-schema_after cs s ds)

-- A run that succeeded changes nothing when it is run again, also after further statements.
pub schema_after_again :
    (cs ds : List Ddl) (s t s' : Schema)
    → schema_after cs s ≡ ok t
    → schema_after ds t ≡ ok s'
    → schema_after cs s' ≡ ok s'
unfolding AllDone
schema_after_again cs ds s t s' h k =
    AllDone-schema_after cs s' (keep cs (schema_after-AllDone cs s t h))
  where
    keep : (cs : List Ddl) → AllDone cs t → AllDone cs s'
    keep [] d = tt
    keep (c ∷ cs) (d, ds') = (is_done-kept_all c ds t s' k d, keep cs ds')
