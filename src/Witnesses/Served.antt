-- ===== src/Witnesses/Served.antt =====
-- What `get_transactions` of src/api/route.rs serves, at a stored payment and an empty cache.
use chain_data_service.Base.{ℕ, String, Option, some, List}
use chain_data_service.Models.{Transaction}
use chain_data_service.Cache.Transaction
use chain_data_service.Db.Coherence.{IsCoherent}
use chain_data_service.Api.Route.{TransactionsQuery}
use chain_data_service.Fixtures.{paid, caches, keep_nothing, by_time, none_found}

abbrev pub to_json : List (Transaction ℕ) → Option String
to_json ts = some "[]"

abbrev pub request : TransactionsQuery
request = record { address = "A"; start_time = "0"; end_time = "200"; offset = "0"; limit = "10" }

pub paid-IsCoherent : IsCoherent by_time keep_nothing keep_nothing paid caches
unfolding keep_nothing caches Transaction.get
paid-IsCoherent a start_time end_time offset limit page e = none_found page e
