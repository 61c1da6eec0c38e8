-- ===== src/Db/Schema/Compatible.antt =====
-- The statements of src/db/mod.rs and src/db/migration.rs succeed on a file whose tables have the
-- columns that the program uses.
use chain_data_service.Base.{
  String, Bool, true, none, some, List, [], ◌∷◌, ◌++◌, ◌≡◌, refl, ap, ◌∙◌, arith, inl, inr, ok, mem,
  Option-cases, Bool-cases, All, map,
}
use chain_data_service.Db.Schema.{
  Table, Index, Schema, Ddl, create_table, create_index, columns_of, all_mem, has_index, can_index,
  run_ddl, init_schema, migrations,
}
use chain_data_service.Db.Schema.Runs.{
  schema_after, created, or_first, or_first_assoc, columns_of-run_ddl,
}

abbrev pub indexed_columns : List String
indexed_columns = "source_address" ∷ "destination_address" ∷ "block_time" ∷ []

abbrev init_columns : List String
init_columns =
    "signature" ∷ "block_time" ∷ "slot" ∷ "source_address" ∷ "destination_address" ∷ "amount"
    ∷ "program_id" ∷ "success" ∷ []

abbrev migration_columns : List String
migration_columns = init_columns ++ "created_at" ∷ []

abbrev on_transactions : String → List String → Index
on_transactions name columns = record { name = name; table = "transactions"; columns = columns }

abbrev init_indexes : List Index
init_indexes =
    on_transactions "idx_transactions_source_time" ("source_address" ∷ "block_time" ∷ [])
    ∷ on_transactions "idx_transactions_destination_time"
        ("destination_address" ∷ "block_time" ∷ [])
    ∷ on_transactions "idx_transactions_time" ("block_time" ∷ [])
    ∷ []

abbrev migration_indexes : List Index
migration_indexes =
    on_transactions "idx_transactions_source_address" ("source_address" ∷ [])
    ∷ on_transactions "idx_transactions_destination_address" ("destination_address" ∷ [])
    ∷ on_transactions "idx_transactions_block_time" ("block_time" ∷ [])
    ∷ []

-- A file whose table of transactions, if it is there, has the columns that the indexes name.
unfoldable pub is_compatible : Schema → Bool
unfolding columns_of all_mem
is_compatible s = elim (columns_of "transactions" s.tables) [
  | none ↦ true
  | some cs ↦ all_mem indexed_columns cs
]

create_index-ok :
    (i : Index) (s : Schema) (cs : List String)
    → columns_of i.table s.tables ≡ some cs
    → all_mem i.columns cs ≡ true
    → (s' : Schema) × (run_ddl (create_index i) s ≡ ok s') × (s'.tables ≡ s.tables)
unfolding run_ddl can_index
create_index-ok i s cs e h = elim (Bool-cases (has_index i.name s.indexes)) [
  | inl old ↦ (s, rw old refl, refl)
  | inr new ↦ (record s { indexes = s.indexes ++ i ∷ [] }, rw (new, e, can_index, h) refl, refl)
]

create_indexes-ok :
    (is : List Index) (s : Schema) (cs : List String)
    → columns_of "transactions" s.tables ≡ some cs
    → All (λ i. (i.table ≡ "transactions") × (all_mem i.columns cs ≡ true)) is
    → (s' : Schema) × (schema_after (map create_index is) s ≡ ok s')
      × (columns_of "transactions" s'.tables ≡ some cs)
unfolding schema_after
create_indexes-ok [] s cs e h = (s, refl, e)
create_indexes-ok (i ∷ is) s cs e ((named, known), h) =
    let (t, run, same) = create_index-ok i s cs (rw named e) known in
    let (s', rest, last) = create_indexes-ok is t cs (ap (columns_of "transactions") same ∙ e) h in
    (s', rw run rest, last)

create_table-ok : (t : Table) (s : Schema) → (s' : Schema) × (run_ddl (create_table t) s ≡ ok s')
unfolding run_ddl
create_table-ok t s = elim (Option-cases (columns_of t.name s.tables)) [
  | inl e ↦ (record s { tables = s.tables ++ t ∷ [] }, rw (e, run_ddl) refl)
  | inr (cs, e) ↦ (s, rw (e, run_ddl) refl)
]

-- Two tables, and indexes on the second.
abbrev statements : (tracked_columns transaction_columns : List String) → List Index → List Ddl
statements tracked_columns transaction_columns is =
    create_table (record { name = "tracked_addresses"; columns = tracked_columns })
    ∷ create_table (record { name = "transactions"; columns = transaction_columns })
    ∷ map create_index is

statements-ok :
    (ts us : List String) (is : List Index) (s : Schema) (cs : List String)
    → or_first (columns_of "transactions" s.tables) (some us) ≡ some cs
    → All (λ i. (i.table ≡ "transactions") × (all_mem i.columns cs ≡ true)) is
    → (s' : Schema) × (schema_after (statements ts us is) s ≡ ok s')
      × (columns_of "transactions" s'.tables ≡ some cs)
unfolding schema_after created
statements-ok ts us is s cs e h =
    let first : Table = record { name = "tracked_addresses"; columns = ts } in
    let second : Table = record { name = "transactions"; columns = us } in
    let (t, run) = create_table-ok first s in
    let (u, next) = create_table-ok second t in
    let columns =
      columns_of-run_ddl "transactions" (create_table second) t u next
      ∙ ap (λ o. or_first o (some us))
          (columns_of-run_ddl "transactions" (create_table first) s t run)
      ∙ or_first_assoc (columns_of "transactions" s.tables) none (some us)
      ∙ e in
    let (s', rest, last) = create_indexes-ok is u cs columns h in (s', rw (run, next) rest, last)

-- The columns of the table of transactions once it is there.
compatible-columns :
    (s : Schema) (us : List String)
    → all_mem indexed_columns us ≡ true
    → is_compatible s ≡ true
    → (cs : List String) × (or_first (columns_of "transactions" s.tables) (some us) ≡ some cs)
      × (all_mem indexed_columns cs ≡ true)
unfolding is_compatible
compatible-columns s us h k = elim (Option-cases (columns_of "transactions" s.tables)) [
  | inl e ↦ (us, rw e refl, h)
  | inr (cs, e) ↦ (cs, rw e refl, ground (arith, e, k))
]

source_known :
    (cs : List String)
    → all_mem indexed_columns cs ≡ true
    → (mem "source_address" cs ≡ true)
      × (mem "destination_address" cs ≡ true)
      × (mem "block_time" cs ≡ true)
unfolding all_mem
source_known cs h = ground arith

-- The statements of the start succeed on a compatible file, one after the other.
pub is_compatible-schema_after :
    (s : Schema)
    → is_compatible s ≡ true
    → (t s' : Schema) × (schema_after init_schema s ≡ ok t) × (schema_after migrations t ≡ ok s')
unfolding all_mem
is_compatible-schema_after s h =
    let (cs, e, k) = compatible-columns s init_columns refl h in
    let (a, b, c) = source_known cs k in
    let (t, first, columns) =
      statements-ok ("address" ∷ "added_at" ∷ []) init_columns init_indexes s cs e (
        (refl, ground (arith, a, c)),
        ((refl, ground (arith, b, c)), ((refl, ground (arith, c)), tt)),
      ) in
    let (s', second, last) =
      statements-ok ("address" ∷ "created_at" ∷ []) migration_columns migration_indexes t cs
        (rw columns refl)
        ((refl, ground (arith, a)), ((refl, ground (arith, b)), ((refl, ground (arith, c)), tt))) in
    (t, s', first, second)
