-- ===== src/Db/Past.antt =====
-- What the query cache of `get_transactions` in src/db/transaction.rs holds when the tables change
-- under it: pages that were right at some time.
use chain_data_service.Base.{ℕ, String, Bool, Option, ◌≡◌, some, ap, ℤ, arith, inl, inr}
use chain_data_service.Cache.Keys.{CacheKey, transaction_query}
use chain_data_service.Cache.Moka.{Moka}
use chain_data_service.Cache.Transaction
use chain_data_service.Cache.Transaction.{Page}
use chain_data_service.Cache.Address.{AppCache}
use chain_data_service.Db.Tables.{Db}
use chain_data_service.Db.Transaction.{RowOrder}
use chain_data_service.Db.Coherence.{answer, IsCoherent}

module _ {F : Type 0} (order : RowOrder F) (m : Moka CacheKey (Page F)) (n : Moka String Bool) where
  -- The transactions of the page are the answer of a database that satisfies `P`, and the total count
  -- that of one that does, maybe another.
  abbrev pub IsAnswered :
      (Db F → Type 0) → Page F → String → (start_time end_time offset limit : ℤ) → Type 0
  IsAnswered P page a start_time end_time offset limit =
      ((db : Db F) × P db × (page.0 ≡ (answer order m n db a start_time end_time offset limit).0))
      × ((db : Db F) × P db × (page.1 ≡ (answer order m n db a start_time end_time offset limit).1))

  -- Every page in the cache is.
  abbrev pub IsPast : (Db F → Type 0) → AppCache m n → Type 0
  IsPast P cache =
      (a : String) (start_time end_time offset limit : ℤ) (page : Page F)
      → Transaction.get m (transaction_query a start_time end_time offset limit)
          cache.transaction_cache
        ≡ some page
      → IsAnswered P page a start_time end_time offset limit

  pub IsCoherent-IsPast :
      (P : Db F → Type 0) (db : Db F) (cache : AppCache m n)
      → P db
      → IsCoherent order m n db cache
      → IsPast P cache
  IsCoherent-IsPast P db cache p c a start_time end_time offset limit page h =
      let right = c a start_time end_time offset limit page h in
      ((db, p, ap (λ x. x.0) right), (db, p, ap (λ x. x.1) right))

  module _ (P : Db F → Type 0) (a : String) (start_time end_time offset limit : ℤ) where
    -- A cache stays so when such a page is stored.
    pub insert-IsPast :
        (stored : Page F) (ttl : Option ℕ) (cache : AppCache m n)
        → IsAnswered P stored a start_time end_time offset limit
        → IsPast P cache
        → IsPast P (record cache {
          transaction_cache =
              Transaction.insert m
                (transaction_query a start_time end_time offset limit)
                stored
                ttl
                cache.transaction_cache;
        })
    unfolding Transaction.get Transaction.insert transaction_query
    insert-IsPast stored ttl cache answered c b s e o l page h =
        elim (m.get-insert (transaction_query b s e o l)
          (transaction_query a start_time end_time offset limit) stored page
          cache.transaction_cache.cache h) [
            | inl (this, new) ↦ moved this new
            | inr (other, old) ↦ c b s e o l page old
          ]
      where
        moved :
            {b : String} {s e o l : ℤ} {page : Page F}
            → transaction_query b s e o l ≡ transaction_query a start_time end_time offset limit
            → page ≡ stored
            → IsAnswered P page b s e o l
        moved {b} {s} {e} {o} {l} {page} this new =
            let ((db, p, rows), (db', q, total)) = answered in
            ((db, p, ground (arith, this, new, rows)), (db', q, ground (arith, this, new, total)))
