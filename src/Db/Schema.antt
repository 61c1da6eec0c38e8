-- ===== src/Db/Schema.antt =====
-- The statements of the schema: `INIT_SCHEMA` of src/db/mod.rs and those of src/db/migration.rs. A
-- statement is a `Ddl` with the columns it names, without their types.
pub mod Runs
pub mod Compatible
use chain_data_service.Base.{
  String, Bool, true, false, Option, none, some, List, [], ◌∷◌, ◌++◌, Result, ok, err, ◌&&◌, ◌||◌,
  if◌then◌else◌, str_eq, mem,
}
use chain_data_service.Db.Tables.{SqlxError, engine}

pub record Table : Type 0 where
  pub name : String
  pub columns : List String

pub record Index : Type 0 where
  pub name : String
  pub table : String
  pub columns : List String

pub record Schema : Type 0 where
  pub tables : List Table
  pub indexes : List Index

-- CREATE TABLE IF NOT EXISTS and CREATE INDEX IF NOT EXISTS.
pub data Ddl : Type 0 where
  create_table : Table → Ddl
  create_index : Index → Ddl

abbrev pub init_schema : List Ddl
init_schema =
    create_table (record { name = "tracked_addresses"; columns = "address" ∷ "added_at" ∷ [] })
    ∷ create_table (record {
      name = "transactions";
      columns =
          "signature" ∷ "block_time" ∷ "slot" ∷ "source_address" ∷ "destination_address" ∷ "amount"
          ∷ "program_id" ∷ "success" ∷ [];
    })
    ∷ create_index (record {
      name = "idx_transactions_source_time";
      table = "transactions";
      columns = "source_address" ∷ "block_time" ∷ [];
    })
    ∷ create_index (record {
      name = "idx_transactions_destination_time";
      table = "transactions";
      columns = "destination_address" ∷ "block_time" ∷ [];
    })
    ∷ create_index (record {
      name = "idx_transactions_time";
      table = "transactions";
      columns = "block_time" ∷ [];
    })
    ∷ []

abbrev pub migrations : List Ddl
migrations =
    create_table (record { name = "tracked_addresses"; columns = "address" ∷ "created_at" ∷ [] })
    ∷ create_table (record {
      name = "transactions";
      columns =
          "signature" ∷ "block_time" ∷ "slot" ∷ "source_address" ∷ "destination_address" ∷ "amount"
          ∷ "program_id" ∷ "success" ∷ "created_at" ∷ [];
    })
    ∷ create_index (record {
      name = "idx_transactions_source_address";
      table = "transactions";
      columns = "source_address" ∷ [];
    })
    ∷ create_index (record {
      name = "idx_transactions_destination_address";
      table = "transactions";
      columns = "destination_address" ∷ [];
    })
    ∷ create_index (record {
      name = "idx_transactions_block_time";
      table = "transactions";
      columns = "block_time" ∷ [];
    })
    ∷ []

unfoldable pub columns_of : String → List Table → Option (List String)
columns_of name [] = none
columns_of name (t ∷ ts) = if str_eq t.name name then some t.columns else columns_of name ts

unfoldable pub has_index : String → List Index → Bool
has_index name [] = false
has_index name (i ∷ is) = str_eq i.name name || has_index name is

unfoldable pub all_mem : List String → List String → Bool
unfolding mem
all_mem [] cs = true
all_mem (n ∷ ns) cs = mem n cs && all_mem ns cs

-- An index needs its table, with its columns.
unfoldable pub can_index : Index → Option (List String) → Bool
unfolding all_mem
can_index i none = false
can_index i (some cs) = all_mem i.columns cs

-- The engine runs a statement.
unfoldable pub run_ddl : Ddl → Schema → Result Schema SqlxError
unfolding columns_of has_index can_index
run_ddl (create_table t) s = elim (columns_of t.name s.tables) [
  | some cs ↦ ok s
  | none ↦ ok (record s { tables = s.tables ++ t ∷ [] })
]
run_ddl (create_index i) s =
    if has_index i.name s.indexes
    then ok s
    else if can_index i (columns_of i.table s.tables)
    then ok (record s { indexes = s.indexes ++ i ∷ [] })
    else err (engine "no such column")
