-- ===== src/Db/Transaction.antt =====
-- src/db/transaction.rs. The order in which the engine sorts rows of equal time is its own: it is
-- the field `order_by` of `RowOrder`, with what ORDER BY promises.
use mathlib.Core.List.{Perm, Pairwise}
use chain_data_service.Base.{
  ℕ, String, Bool, Option, none, some, List, [], ◌∷◌, map, ok, ℤ, pos, negsuc, ◌≤ℤ◌, ◌==◌, not,
  if◌then◌else◌, length, take_rows, drop_rows,
}
use chain_data_service.Models.{Transaction}
use chain_data_service.Cache.Keys.{CacheKey, transaction_query}
use chain_data_service.Cache.Moka.{Moka}
use chain_data_service.Cache.Transaction
use chain_data_service.Cache.Transaction.{Page, get_ttl_for_time_range}
use chain_data_service.Cache.Address.{AppCache}
use chain_data_service.Db.Tables.{Db, TransactionRow, insert_transaction, select_rows}
use chain_data_service.Db.Exec.{Exec, ◌>>=◌, ◌>>◌, pure, statement, rolled_back}

module _ {F : Type 0} where
  -- The values that are bound to an INSERT.
  unfoldable pub to_row : Transaction F → TransactionRow F
  to_row t = record {
    signature = t.signature;
    block_time = t.block_time;
    slot = t.slot;
    source_address = t.source_address;
    destination_address = t.destination_address;
    amount = t.amount;
    program_id = t.program_id;
    success = if t.success then 1 else 0;
  }

  -- A row that is read back.
  unfoldable pub of_row : TransactionRow F → Transaction F
  of_row r = record {
    signature = r.signature;
    block_time = r.block_time;
    slot = r.slot;
    source_address = r.source_address;
    destination_address = r.destination_address;
    amount = r.amount;
    program_id = r.program_id;
    success = not (r.success == 0);
  }

module _ {F S : Type 0} where
  unfoldable pub insert_all : List (Transaction F) → Exec F S (Unit {0})
  insert_all [] = pure tt
  insert_all (t ∷ ts) = do statement (insert_transaction (to_row t)); insert_all ts

  -- The loop and the commit, in a transaction that an error rolls back.
  unfoldable pub insert_and_commit : List (Transaction F) → Exec F S (Unit {0})
  insert_and_commit ts = rolled_back (do insert_all ts; statement (λ db. (ok tt, db)))

  unfoldable pub add_transactions : List (Transaction F) → Exec F S (Unit {0})
  add_transactions ts = do statement (λ db. (ok tt, db)); insert_and_commit ts

-- An early return on a hit.
unfoldable pub or_query : {F S A : Type 0} → Option A → Exec F S A → Exec F S A
or_query (some page) query = pure page
or_query none query = query

module _ {F : Type 0} where
  unfoldable pub count_rows : String → (start_time end_time : ℤ) → Db F → ℤ
  unfolding select_rows
  count_rows a start_time end_time db = pos (length (select_rows a start_time end_time db))

module _ {F S : Type 0} where
  unfoldable pub count_transactions : String → (start_time end_time : ℤ) → Exec F S ℤ
  count_transactions a start_time end_time =
      statement (λ db. (ok (count_rows a start_time end_time db), db))

-- `ORDER BY block_time ASC`.
pub record RowOrder (F : Type 0) : Type 0 where
  pub order_by : List (TransactionRow F) → List (TransactionRow F)
  pub order_by-Pairwise :
      (rows : List (TransactionRow F))
      → Pairwise (λ r s. r.block_time ≤ℤ s.block_time) (order_by rows)
  pub order_by-perm : (rows : List (TransactionRow F)) → Perm (order_by rows) rows

module _ {ℓ} {A : Type ℓ} where
  -- `LIMIT ?`: a negative limit is none.
  unfoldable pub limit_rows : ℤ → List A → List A
  unfolding take_rows
  limit_rows (pos n) rows = take_rows n rows
  limit_rows (negsuc n) rows = rows

  -- `OFFSET ?`: a negative offset is 0.
  unfoldable pub offset_rows : ℤ → List A → List A
  unfolding drop_rows
  offset_rows (pos n) rows = drop_rows n rows
  offset_rows (negsuc n) rows = rows

module _ {F : Type 0} (order : RowOrder F) where
  open order use {order_by}

  unfoldable pub select_page :
      String → (start_time end_time offset limit : ℤ) → Db F → List (TransactionRow F)
  unfolding select_rows limit_rows offset_rows
  select_page a start_time end_time offset limit db =
      limit_rows limit (offset_rows offset (order_by (select_rows a start_time end_time db)))

  module _ (m : Moka CacheKey (Page F)) (n : Moka String Bool) (now : ℤ) where
    unfoldable pub read_cache : CacheKey → Exec F (AppCache m n) (Option (Page F))
    unfolding Transaction.get
    read_cache key w = (ok (Transaction.get m key w.cache.transaction_cache), w)

    unfoldable pub write_cache : CacheKey → Page F → Option ℕ → Exec F (AppCache m n) (Unit {0})
    unfolding Transaction.insert
    write_cache key page ttl w =
        let cache = w.cache in
        (
          ok tt,
          record w {
            cache = record cache {
              transaction_cache = Transaction.insert m key page ttl cache.transaction_cache;
            };
          },
        )

    -- The two statements of a query; another connection may commit between them.
    unfoldable pub query_count : String → (start_time end_time : ℤ) → Exec F (AppCache m n) ℤ
    query_count a start_time end_time =
        statement (λ db. (ok (count_rows a start_time end_time db), db))

    unfoldable pub query_rows :
        String
        → (start_time end_time offset limit : ℤ) → Exec F (AppCache m n) (List (TransactionRow F))
    query_rows a start_time end_time offset limit =
        statement (λ db. (ok (select_page a start_time end_time offset limit db), db))

    -- The part of `get_transactions` after a miss, with nothing between its statements.
    unfoldable pub query_database :
        String → (start_time end_time offset limit : ℤ) → Exec F (AppCache m n) (Page F)
    unfolding query_count query_rows
    query_database a start_time end_time offset limit = do
      total_count ← query_count a start_time end_time
      rows ← query_rows a start_time end_time offset limit
      let transactions = map of_row rows
      let ttl = get_ttl_for_time_range now start_time end_time
      write_cache (transaction_query a start_time end_time offset limit) (transactions, total_count)
          (some ttl)
      pure (transactions, total_count)

    unfoldable pub get_transactions :
        String → (start_time end_time offset limit : ℤ) → Exec F (AppCache m n) (Page F)
    get_transactions a start_time end_time offset limit = do
      hit ← read_cache (transaction_query a start_time end_time offset limit)
      or_query hit (query_database a start_time end_time offset limit)
