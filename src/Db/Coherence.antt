-- ===== src/Db/Coherence.antt =====
-- The query cache of `get_transactions` in src/db/transaction.rs.
use chain_data_service.Base.{
  suc, String, Bool, ◌≡◌, ◌⊎◌, some, map, ok, ℤ, arith, inl, inr, Option-cases,
}
use chain_data_service.Cache.Keys.{CacheKey, transaction_query}
use chain_data_service.Cache.Moka.{Moka}
use chain_data_service.Cache.Transaction
use chain_data_service.Cache.Transaction.{Page, get_ttl_for_time_range}
use chain_data_service.Cache.Address.{AppCache}
use chain_data_service.Db.Tables.{Db}
use chain_data_service.Db.Exec.{IsCalm, World, exec}
use chain_data_service.Db.Transaction.{
  RowOrder, of_row, select_page, count_rows, read_cache, write_cache, or_query, query_database,
  get_transactions,
}

module _ {F : Type 0} (order : RowOrder F) (m : Moka CacheKey (Page F)) (n : Moka String Bool) where
  -- What the database answers now.
  abbrev pub answer : Db F → String → (start_time end_time offset limit : ℤ) → Page F
  answer db a start_time end_time offset limit = (
    map of_row (select_page order a start_time end_time offset limit db),
    count_rows a start_time end_time db,
  )

  -- Every page in the cache is the answer of the database.
  abbrev pub IsCoherent : Db F → AppCache m n → Type 0
  IsCoherent db cache =
      (a : String) (start_time end_time offset limit : ℤ) (page : Page F)
      → Transaction.get m (transaction_query a start_time end_time offset limit)
          cache.transaction_cache
        ≡ some page
      → page ≡ answer db a start_time end_time offset limit

  module _ (now : ℤ) (a : String) (start_time end_time offset limit : ℤ)
      (w : World F (AppCache m n)) where
    abbrev pub key : CacheKey
    key = transaction_query a start_time end_time offset limit

    -- With a coherent cache, a successful query returns the answer of the database.
    pub get_transactions-answer :
        (page : Page F)
        → IsCoherent w.db w.cache
        → (get_transactions order m n now a start_time end_time offset limit w).0 ≡ ok page
        → page ≡ answer w.db a start_time end_time offset limit
    unfolding get_transactions query_database exec read_cache write_cache or_query
    get_transactions-answer page c h =
        elim (Option-cases (Transaction.get m key w.cache.transaction_cache)) [
          | inl e ↦ ground (arith, e)
          | inr (hit, e) ↦ ground (arith, e, c a start_time end_time offset limit hit e)
        ]

    -- With a coherent cache and no failure, the query succeeds with the answer of the database.
    pub get_transactions-total :
        IsCalm w
        → IsCoherent w.db w.cache
        → (get_transactions order m n now a start_time end_time offset limit w).0
          ≡ ok (answer w.db a start_time end_time offset limit)
    unfolding get_transactions query_database exec read_cache write_cache or_query
    get_transactions-total calm c =
        elim (Option-cases (Transaction.get m key w.cache.transaction_cache)) [
          | inl e ↦ ground (arith, e, calm w.issued, calm (suc w.issued))
          | inr (hit, e) ↦ ground (arith, e, c a start_time end_time offset limit hit e)
        ]

    get_transactions-hit :
        (page : Page F)
        → Transaction.get m key w.cache.transaction_cache ≡ some page
        → get_transactions order m n now a start_time end_time offset limit w ≡ (ok page, w)
    unfolding get_transactions exec read_cache or_query
    get_transactions-hit page e = rw e

    abbrev pub filled : AppCache m n
    filled =
        let cache = w.cache in
        record cache {
          transaction_cache =
              Transaction.insert m key (answer w.db a start_time end_time offset limit)
                (some (get_ttl_for_time_range now start_time end_time)) cache.transaction_cache;
        }

    abbrev pub after : World F (AppCache m n)
    after = (get_transactions order m n now a start_time end_time offset limit w).1

    pub get_transactions-after :
        (after.db ≡ w.db) × ((after.cache ≡ w.cache) ⊎ (after.cache ≡ filled))
    unfolding get_transactions query_database exec read_cache write_cache or_query
    get_transactions-after = elim (Option-cases (Transaction.get m key w.cache.transaction_cache)) [
      | inl e ↦ (ground (arith, e), ground (arith, e))
      | inr (hit, e) ↦ (ground (arith, e), ground (arith, e))
    ]

    filled-IsCoherent : IsCoherent w.db w.cache → IsCoherent w.db filled
    unfolding Transaction.get Transaction.insert transaction_query
    filled-IsCoherent c b s e o l page h =
        elim (m.get-insert (transaction_query b s e o l) key
          (answer w.db a start_time end_time offset limit) page w.cache.transaction_cache.cache h) [
            | inl (same, new) ↦ ground (arith, same, new)
            | inr (other, old) ↦ c b s e o l page old
          ]

    -- A query keeps the cache coherent, whether it hits, misses or fails, and leaves the tables
    -- alone.
    pub get_transactions-IsCoherent :
        IsCoherent w.db w.cache → IsCoherent after.db after.cache × (after.db ≡ w.db)
    get_transactions-IsCoherent c =
        let (same_db, cases) = get_transactions-after in
        (
          elim cases [
            | inl same ↦ rw (same_db, same) c
            | inr new ↦ rw (same_db, new) (filled-IsCoherent c)
          ],
          same_db,
        )
