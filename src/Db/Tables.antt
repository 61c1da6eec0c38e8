-- ===== src/Db/Tables.antt =====
-- The schema of src/db/mod.rs and the SQL statements that src/db/address.rs and
-- src/db/transaction.rs send: each is the function on tables that its text describes, with the
-- primary keys, the ON CONFLICT clauses and the foreign keys that connection.rs turns on. Columns
-- that the schema lets be NULL are `Option`.
use chain_data_service.Base.{
  ℕ, suc, String, Bool, true, false, Option, none, some, List, [], ◌∷◌, ◌++◌, Result, ok, err, ℤ,
  ◌&&◌, ◌||◌, if◌then◌else◌, str_eq, ltb, leb_ℤ, ltb_ℤ, filter_by,
}

pub data SqlxError : Type 0 where
  protocol : String → SqlxError
  foreign_key : SqlxError
  engine : String → SqlxError

-- A row of `tracked_addresses`; a TEXT primary key of SQLite may be NULL.
pub record AddressRow : Type 0 where
  pub address : Option String
  pub added_at : ℤ

-- A row of `transactions`.
pub record TransactionRow (F : Type 0) : Type 0 where
  pub signature : String
  pub block_time : ℤ
  pub slot : ℤ
  pub source_address : String
  pub destination_address : Option String
  pub amount : Option F
  pub program_id : Option String
  pub success : ℕ

pub record Db (F : Type 0) : Type 0 where
  pub tracked : List AddressRow
  pub transactions : List (TransactionRow F)

-- `column = ?`, which NULL does not satisfy.
unfoldable pub is_text : String → Option String → Bool
is_text a none = false
is_text a (some b) = str_eq b a

-- SELECT COUNT(*) FROM tracked_addresses WHERE address = ?
unfoldable pub count_address : String → List AddressRow → ℕ
unfolding is_text
count_address a [] = 0
count_address a (r ∷ rs) =
    if is_text a r.address then suc (count_address a rs) else count_address a rs

-- INSERT ... ON CONFLICT(address) DO UPDATE SET added_at = excluded.added_at
unfoldable pub upsert : String → ℤ → List AddressRow → List AddressRow
unfolding is_text
upsert a now [] = record { address = some a; added_at = now } ∷ []
upsert a now (r ∷ rs) =
    if is_text a r.address then record r { added_at = now } ∷ rs else r ∷ upsert a now rs

unfoldable pub delete_rows : String → List AddressRow → List AddressRow
unfolding is_text
delete_rows a [] = []
delete_rows a (r ∷ rs) = if is_text a r.address then delete_rows a rs else r ∷ delete_rows a rs

-- A foreign key that a NULL satisfies.
unfoldable pub destination_ok : List AddressRow → Option String → Bool
destination_ok rows none = true
destination_ok rows (some d) = ltb 0 (count_address d rows)

module _ {F : Type 0} where
  -- source_address = ? OR destination_address = ?
  unfoldable pub involves : String → TransactionRow F → Bool
  unfolding is_text
  involves a r = str_eq r.source_address a || is_text a r.destination_address

  unfoldable pub has_reference : String → List (TransactionRow F) → Bool
  unfolding involves
  has_reference a [] = false
  has_reference a (r ∷ rs) = involves a r || has_reference a rs

  unfoldable pub has_signature : String → List (TransactionRow F) → Bool
  has_signature s [] = false
  has_signature s (r ∷ rs) = str_eq r.signature s || has_signature s rs

  -- The two foreign keys of a row.
  unfoldable pub references_ok : List AddressRow → TransactionRow F → Bool
  unfolding destination_ok
  references_ok rows r =
      ltb 0 (count_address r.source_address rows) && destination_ok rows r.destination_address

  -- DELETE FROM tracked_addresses WHERE address = ?, with the number of rows deleted. The foreign
  -- keys have no ON DELETE action, so a row that is referred to is not deleted.
  unfoldable pub delete_address : String → Db F → Result ℕ SqlxError × Db F
  unfolding has_reference count_address delete_rows
  delete_address a db =
      if ltb 0 (count_address a db.tracked) && has_reference a db.transactions
      then (err foreign_key, db)
      else (ok (count_address a db.tracked), record db { tracked = delete_rows a db.tracked })

  -- INSERT INTO transactions ... ON CONFLICT(signature) DO NOTHING
  unfoldable pub insert_transaction : TransactionRow F → Db F → Result (Unit {0}) SqlxError × Db F
  unfolding has_signature references_ok
  insert_transaction r db =
      if has_signature r.signature db.transactions
      then (ok tt, db)
      else if references_ok db.tracked r
      then (ok tt, record db { transactions = db.transactions ++ r ∷ [] })
      else (err foreign_key, db)

  -- The WHERE clause of the two queries on `transactions`.
  unfoldable pub matches : String → ℤ → ℤ → TransactionRow F → Bool
  unfolding involves
  matches a start_time end_time r =
      involves a r && (leb_ℤ start_time r.block_time && ltb_ℤ r.block_time end_time)

  unfoldable pub select_rows : String → ℤ → ℤ → Db F → List (TransactionRow F)
  unfolding matches
  select_rows a start_time end_time db = filter_by (matches a start_time end_time) db.transactions
