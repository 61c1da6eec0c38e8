-- ===== src/Db/RoundTrip.antt =====
-- What src/db/transaction.rs stores and then reads.
use mathlib.Core.List.{Perm, map-append}
use mathlib.Core.List.Perm
use chain_data_service.Base.{
  ℕ, String, Bool, true, false, ◌≡◌, refl, ap, sym, subst, ◌∙◌, List, [], ◌∷◌, ◌++◌, map, ok, ℤ,
  pos, ◌≤ℤ◌, arith, inl, inr, Bool-cases, append_assoc, append-nil, filter_by, filter_by-append,
}
use chain_data_service.Models.{Transaction}
use chain_data_service.Cache.Keys.{CacheKey}
use chain_data_service.Cache.Moka.{Moka}
use chain_data_service.Cache.Transaction.{Page}
use chain_data_service.Cache.Address.{AppCache}
use chain_data_service.Db.Tables.{Db, TransactionRow, has_signature, matches, select_rows}
use chain_data_service.Db.Exec.{World, IsCalm}
use chain_data_service.Db.Transaction.{
  RowOrder, to_row, of_row, add_transactions, count_rows, get_transactions,
}
use chain_data_service.Db.Atomic.{stored, after_batch, AllReferencesOk, add_transactions_complete}
use chain_data_service.Db.Query.{select_page_complete}
use chain_data_service.Db.Coherence.{IsCoherent, get_transactions-total}

module _ {F : Type 0} where
  -- A row that is read back is the transaction that was written.
  pub of_row-to_row : (t : Transaction F) → of_row (to_row t) ≡ t
  unfolding of_row to_row
  of_row-to_row t = elim (Bool-cases t.success) [
    | inl e ↦ ground (arith, e)
    | inr e ↦ ground (arith, e)
  ]

  -- The transactions of a batch whose signature is new when their turn comes.
  unfoldable pub fresh : List (Transaction F) → List (TransactionRow F) → List (Transaction F)
  fresh [] rows = []
  fresh (t ∷ ts) rows = elim (has_signature t.signature rows) [
    | true ↦ fresh ts rows
    | false ↦ t ∷ fresh ts (rows ++ to_row t ∷ [])
  ]

  stored-fresh :
      (ts : List (Transaction F)) (rows : List (TransactionRow F))
      → stored ts rows ≡ rows ++ map to_row (fresh ts rows)
  unfolding stored fresh
  stored-fresh [] rows = sym (append-nil rows)
  stored-fresh (t ∷ ts) rows = elim (Bool-cases (has_signature t.signature rows)) [
    | inl e ↦ rw (e, fresh) (stored-fresh ts rows)
    | inr e ↦
        rw (e, fresh)
          (stored-fresh ts (rows ++ to_row t ∷ [])
            ∙ append_assoc rows (to_row t ∷ []) (map to_row (fresh ts (rows ++ to_row t ∷ []))))
  ]

  filter-to_row :
      (p : TransactionRow F → Bool) (ts : List (Transaction F))
      → map of_row (filter_by p (map to_row ts)) ≡ filter_by (λ t. p (to_row t)) ts
  unfolding filter_by
  filter-to_row p [] = refl
  filter-to_row p (t ∷ ts) = elim (Bool-cases (p (to_row t))) [
    | inl e ↦ ground (arith, e, of_row-to_row t, filter-to_row p ts)
    | inr e ↦ ground (arith, e, filter-to_row p ts)
  ]

  select_rows-after :
      (a : String) (start_time end_time : ℤ) (ts : List (Transaction F)) (db : Db F)
      → map of_row (select_rows a start_time end_time (after_batch ts db))
        ≡ map of_row (select_rows a start_time end_time db)
          ++ filter_by (λ t. matches a start_time end_time (to_row t)) (fresh ts db.transactions)
  unfolding select_rows
  select_rows-after a start_time end_time ts db =
      let p = matches a start_time end_time in
      let new_rows = map to_row (fresh ts db.transactions) in
      ap (λ l. map of_row (filter_by p l)) (stored-fresh ts db.transactions)
      ∙ ap (map of_row) (filter_by-append p db.transactions new_rows)
      ∙ map-append of_row (filter_by p db.transactions) (filter_by p new_rows)
      ∙ ap (λ l. map of_row (filter_by p db.transactions) ++ l)
          (filter-to_row p (fresh ts db.transactions))

module _ {F : Type 0} (order : RowOrder F) (m : Moka CacheKey (Page F)) (n : Moka String Bool) where
  -- After a batch whose rows refer to tracked addresses has been stored with no failure, a query
  -- from the start of an address and a time range, whose limit is not below the number of matches
  -- and whose cache has no stale page, succeeds: its page has the transactions that matched before
  -- and the matching ones of the batch whose signature was new, each as it was given, and the total
  -- counts them.
  pub add_transactions-get_transactions :
      (now : ℤ) (a : String) (start_time end_time : ℤ) (limit : ℕ) (ts : List (Transaction F))
      (w : World F (AppCache m n))
      → IsCalm w
      → AllReferencesOk w.db ts
      → IsCoherent order m n (after_batch ts w.db) w.cache
      → count_rows a start_time end_time (after_batch ts w.db) ≤ℤ pos limit
      → (page : List (Transaction F)) × ((get_transactions order m n now a start_time end_time
            (pos 0)
            (pos limit)
            (add_transactions ts w).1).0
          ≡ ok (page, count_rows a start_time end_time (after_batch ts w.db)))
        × Perm page (
            map of_row (select_rows a start_time end_time w.db)
            ++ filter_by
                (λ t. matches a start_time end_time (to_row t))
                (fresh ts w.db.transactions))
  add_transactions-get_transactions now a start_time end_time limit ts w calm refs coherent enough =
      let (k, e) = add_transactions_complete ts w calm refs in
      let w' : World F (AppCache m n) = record w { db = after_batch ts w.db; issued = k } in
      let total =
        get_transactions-total order m n now a start_time end_time (pos 0) (pos limit) w' calm
          coherent in
      let rows =
        select_page_complete order a start_time end_time limit (after_batch ts w.db) enough in
      (
        _,
        ap (λ r. (get_transactions order m n now a start_time end_time (pos 0) (pos limit) r.1).0) e
            ∙ total,
        subst (Perm _) (select_rows-after a start_time end_time ts w.db) (Perm.map of_row rows),
      )
