-- ===== src/Witnesses/Requests.antt =====
-- The theorems on src/validation.rs and src/api/route.rs at concrete requests.
use chain_data_service.Base.{
  ℕ, String, Option, some, List, [], ◌∷◌, ◌≡◌, ◌≢◌, All, arith, refl, ok, err, ℤ, pos, from_str,
  ltb_ℤ, is_blank, filter_by, take_rows, drop_rows, true,
}
use chain_data_service.Models.{Transaction}
use chain_data_service.Cache.Address.{AppCache}
use chain_data_service.Validation.{
  validate_limit, validate_offset, validate_solana_address, validate_timestamp,
}
use chain_data_service.Db.Tables.{
  TransactionRow, foreign_key, count_address, select_rows, matches, involves, is_text,
}
use chain_data_service.Db.Observed.{times_of, IsOf}
use mathlib.Core.List.{Mem}
use chain_data_service.Db.Transaction.{
  to_row, of_row, query_database, read_cache, write_cache, or_query, select_page, count_rows,
  limit_rows, offset_rows,
}
use chain_data_service.Db
use chain_data_service.Db.Address.{is_address_tracked}
use chain_data_service.Cache
use chain_data_service.Api.Handler.{handler}
use chain_data_service.Db.Exec.{World, exec}
use chain_data_service.Api.Error.{status_of, database, invalid_address}
use chain_data_service.Api.Response.{plain, respond, with_total_count}
use chain_data_service.Api.Route.{
  TrackQuery, TransactionsQuery, track_address, get_transactions, is_action, check_address,
}
use chain_data_service.Api.Track.{IsRetimed, track_address-add, track_address-remove}
use chain_data_service.Api.Guards.{track_address-client_error, get_transactions-ok}
use chain_data_service.Fixtures.{payment, paid, calm_world, caches, keep_nothing, by_time, decode}

abbrev as_is : ℕ → List ℕ
as_is c = c ∷ []

abbrev world : World ℕ (Unit {0})
world = calm_world paid tt

A_valid : validate_solana_address decode "A" ≡ ok tt
unfolding validate_solana_address decode is_blank
A_valid = refl

track_address-add_example :
    ((track_address decode as_is (pos 9) (record { address = "A"; action = "ADD" }) world).0
      ≡ ok (respond 201 (plain "Address added to tracking")))
    × IsRetimed "A" world
        (pos 9 ∷ [])
        (track_address decode as_is (pos 9) (record { address = "A"; action = "ADD" }) world).1
unfolding is_action count_address is_text
track_address-add_example =
    track_address-add decode as_is (pos 9) (record { address = "A"; action = "ADD" }) world A_valid
      (λ n. refl) (omega arith) refl

abbrev remove : TrackQuery
remove = record { address = "A"; action = "remove" }

track_address-remove_example :
    let (answer, u) = track_address decode as_is (pos 9) remove world in
    (times_of "A" paid.tracked ≡ []
      → (answer ≡ ok (respond 200 (plain "Address was not being tracked")))
        × IsRetimed "A" world [] u)
    × ((r : TransactionRow ℕ)
        → times_of "A" paid.tracked ≢ []
        → Mem r paid.transactions
        → IsOf "A" r
        → (answer ≡ err (database foreign_key)) × (u ≡ record world { issued = 1 }))
    × (times_of "A" paid.tracked ≢ []
        → All (λ r. ¬ IsOf "A" r) paid.transactions
        → (answer ≡ ok (respond 200 (plain "Address removed from tracking")))
          × IsRetimed "A" world [] u)
unfolding is_action
track_address-remove_example =
    track_address-remove decode as_is (pos 9) remove world A_valid (λ n. refl) refl refl

track_address-client_error_example :
    (track_address decode as_is (pos 9) (record { address = ""; action = "add" }) world).1 ≡ world
unfolding track_address check_address handler validate_solana_address is_blank status_of
track_address-client_error_example =
    track_address-client_error decode as_is (pos 9) (record { address = ""; action = "add" }) world
      invalid_address refl refl

abbrev cached_world : World ℕ (AppCache {F = ℕ} keep_nothing keep_nothing)
cached_world = calm_world paid caches

abbrev to_json : List (Transaction ℕ) → Option String
to_json ts = some "[]"

abbrev request : String → TransactionsQuery
request limit = record {
  address = "A";
  start_time = "0";
  end_time = "200";
  offset = "0";
  limit = limit;
}

get_transactions-ok_example :
    (start_time : ℤ) × (end_time : ℤ) × (offset : ℤ) × (limit : ℤ) × (validate_timestamp "0"
      ≡ ok start_time)
    × (validate_timestamp "200" ≡ ok end_time)
    × (validate_offset "0" ≡ ok offset)
    × (validate_limit "10" ≡ ok limit)
    × (validate_solana_address decode "A" ≡ ok tt)
    × (ltb_ℤ start_time end_time ≡ true)
unfolding get_transactions check_address handler exec validate_solana_address is_blank decode
    from_str validate_timestamp validate_offset validate_limit is_address_tracked count_address
    is_text Db.Transaction.get_transactions query_database read_cache write_cache or_query
    Cache.Transaction.get keep_nothing caches by_time select_page select_rows count_rows matches
    involves to_row of_row filter_by limit_rows offset_rows take_rows drop_rows
get_transactions-ok_example =
    get_transactions-ok by_time keep_nothing keep_nothing to_json decode (pos 1000) (request "10")
      cached_world (with_total_count to_json (payment ∷ []) (pos 1)) refl
