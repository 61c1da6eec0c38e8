-- ===== src/Cache/Transaction.antt =====
-- src/cache/transaction.rs. `now` is the clock's reading in seconds; a `Duration` is its seconds.
use mathlib.Core.Option.{get_or}
use chain_data_service.Base.{
  ℕ, String, Bool, false, Option, none, some, List, ℤ, pos, ◌-ℤ◌, ltb_ℤ, str_eq, if◌then◌else◌,
}
use chain_data_service.Models
use chain_data_service.Cache.Keys.{CacheKey, address}
use chain_data_service.Cache.Moka.{Moka}

-- What is stored for a query: a page of transactions, and the number of all.
abbrev pub Page : Type 0 → Type 0
Page F = List (Models.Transaction F) × ℤ

pub record TransactionCacheManager {F : Type 0} (m : Moka CacheKey (Page F)) : Type 0 where
  pub cache : m.Store
  pub default_ttl : ℕ

-- The predicate that `invalidate_for_address` hands over.
unfoldable pub names_address : String → CacheKey → Bool
unfolding address
names_address a k = elim (address k) [ none ↦ false | some key_addr ↦ str_eq key_addr a ]

unfoldable pub get_ttl_for_time_range : (now start_time end_time : ℤ) → ℕ
get_ttl_for_time_range now start_time end_time =
    if ltb_ℤ (now -ℤ pos 3600) end_time
    then 30
    else if ltb_ℤ (now -ℤ pos 86400) end_time
    then 300
    else 1800

module _ {F : Type 0} (m : Moka CacheKey (Page F)) where
  unfoldable pub new : ℕ → ℕ → TransactionCacheManager m
  new capacity default_ttl = record {
    cache = m.build capacity default_ttl;
    default_ttl = default_ttl;
  }

  unfoldable pub get : CacheKey → TransactionCacheManager m → Option (Page F)
  get key self = m.get key self.cache

  -- The `ttl` that is chosen is only logged.
  unfoldable pub insert :
      CacheKey → Page F → Option ℕ → TransactionCacheManager m → TransactionCacheManager m
  insert key value ttl self =
      let chosen = get_or ttl self.default_ttl in
      record self { cache = m.insert key value self.cache }

  unfoldable pub invalidate_for_address :
      String → TransactionCacheManager m → TransactionCacheManager m
  unfolding names_address
  invalidate_for_address a self = record self {
    cache = (m.invalidate_entries_if (λ k _. names_address a k) self.cache).1;
  }
