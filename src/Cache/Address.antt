-- ===== src/Cache/Address.antt =====
-- src/cache/address.rs and `init_cache` of src/cache/mod.rs.
use chain_data_service.Base.{ℕ, String, Bool, Option}
use chain_data_service.Config.{Config}
use chain_data_service.Cache.Keys.{CacheKey}
use chain_data_service.Cache.Moka.{Moka}
use chain_data_service.Cache.Transaction
use chain_data_service.Cache.Transaction.{Page, TransactionCacheManager}

pub record AddressCacheManager (m : Moka String Bool) : Type 0 where
  pub cache : m.Store

module _ (m : Moka String Bool) where
  unfoldable pub new : ℕ → ℕ → AddressCacheManager m
  new capacity ttl = record { cache = m.build capacity ttl }

  unfoldable pub is_tracked : String → AddressCacheManager m → Option Bool
  is_tracked address self = m.get address self.cache

  unfoldable pub set_tracked : String → Bool → AddressCacheManager m → AddressCacheManager m
  set_tracked address tracked self = record { cache = m.insert address tracked self.cache }

  unfoldable pub invalidate : String → AddressCacheManager m → AddressCacheManager m
  invalidate address self = record { cache = m.invalidate address self.cache }

pub record AppCache {F : Type 0} (m : Moka CacheKey (Page F)) (n : Moka String Bool) : Type 0 where
  pub transaction_cache : TransactionCacheManager m
  pub address_cache : AddressCacheManager n

unfoldable pub init_cache :
    {F : Type 0} (m : Moka CacheKey (Page F)) (n : Moka String Bool) → Config → AppCache m n
unfolding Transaction.new new
init_cache m n config = record {
  transaction_cache = Transaction.new m config.cache_max_capacity config.cache_ttl;
  address_cache = new n 1000 60;
}
