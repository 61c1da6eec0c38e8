-- ===== src/Cache/Keys.antt =====
-- src/cache/keys.rs. A text that is printed is its list of code points.
use chain_data_service.Base.{ℕ, String, Option, some, List, ◌∷◌, ◌++◌, ℤ, codes, display}

pub data CacheKey : Type 0 where
  transaction_query_key : (address : String) (start_time end_time offset limit : ℤ) → CacheKey
  address_tracked_key : (address : String) → CacheKey

unfoldable pub transaction_query : String → ℤ → ℤ → ℤ → ℤ → CacheKey
transaction_query address start_time end_time offset limit =
    transaction_query_key address start_time end_time offset limit

unfoldable pub address_tracked : String → CacheKey
address_tracked address = address_tracked_key address

unfoldable pub address : CacheKey → Option String
address (transaction_query_key a start_time end_time offset limit) = some a
address (address_tracked_key a) = some a

-- A ':' and an integer, and what follows.
unfoldable pub field : ℤ → List ℕ → List ℕ
field n rest = b':' ∷ (display n ++ rest)

-- `Display` of a key.
unfoldable pub fmt : CacheKey → List ℕ
unfolding field
fmt (transaction_query_key a start_time end_time offset limit) =
    codes "tx:"
    ++ (codes a ++ field start_time (field end_time (field offset (field limit List.[]))))
fmt (address_tracked_key a) = codes "addr:" ++ codes a
