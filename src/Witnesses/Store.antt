-- ===== src/Witnesses/Store.antt =====
-- The theorems on src/db at small tables.
use chain_data_service.Base.{ℕ, [], ◌∷◌, ◌≡◌, ◌↔◌, ◌≤ℤ◌, length, ok, err, pos, filter_by, arith}
use mathlib.Core.List.{Mem, Pairwise}
use chain_data_service.Db.Tables.{
  SqlxError, TransactionRow, is_text, select_rows, matches, involves,
}
use chain_data_service.Db.Exec.{World}
use chain_data_service.Db.Transaction.{add_transactions, to_row, select_page, count_rows}
use chain_data_service.Db.Atomic.{add_transactions-atomic, after_batch}
use chain_data_service.Db.Observed.{IsWithin}
use chain_data_service.Db.Query.{select_page-rows}
use chain_data_service.Fixtures.{payment, tables, paid, calm_world, by_time}

abbrev world : World ℕ (Unit {0})
world = calm_world tables tt

add_transactions-atomic_example :
    ((add_transactions (payment ∷ []) world).0 ≡ ok tt
      → (add_transactions (payment ∷ []) world).1.db ≡ after_batch (payment ∷ []) tables)
    × ((e : SqlxError)
        → (add_transactions (payment ∷ []) world).0 ≡ err e
        → (add_transactions (payment ∷ []) world).1.db ≡ tables)
add_transactions-atomic_example = add_transactions-atomic (payment ∷ []) world

select_page-rows_example :
    let page = select_page by_time "A" (pos 0) (pos 200) (pos 0) (pos 1) paid in
    ((r : TransactionRow ℕ)
      → Mem r page ↔ (Mem r paid.transactions × IsWithin "A" (pos 0) (pos 200) r))
    × Pairwise (λ r s. r.block_time ≤ℤ s.block_time) page
    × (count_rows "A" (pos 0) (pos 200) paid ≡ pos (length page))
unfolding count_rows select_rows matches involves is_text to_row filter_by
select_page-rows_example = select_page-rows by_time "A" (pos 0) (pos 200) 1 paid (omega arith)
