-- ===== src/Witnesses/Stale.antt =====
-- Two queries of the program, with a cache that keeps the last page, while a worker stores a payment.
use mathlib.Core.List.{filter_map}
use chain_data_service.Base.{
  ℕ, All, map, Bool, true, false, Option, none, some, List, [], ◌∷◌, ok, ℤ, pos, negsuc, ◌≡◌, ◌≢◌,
  ◌⊎◌, refl, str_eq, eq_iff, ◌&&◌, ◌==◌, if◌then◌else◌, Bool-cases, inl, inr, arith, is_blank,
  from_str, filter_by, take_rows, drop_rows, mem, wrap_i64, pattern_of, to_i64, ◌-ℤ◌,
}
use chain_data_service.Validation.{
  validate_solana_address, validate_timestamp, validate_offset, validate_limit,
}
use chain_data_service.Cache.Keys.{
  CacheKey, transaction_query_key, address_tracked_key, transaction_query,
}
use chain_data_service.Cache.Moka.{Moka}
use chain_data_service.Cache.Transaction
use chain_data_service.Cache.Transaction.{Page}
use chain_data_service.Db.Coherence.{IsCoherent}
use chain_data_service.Api.Handler.{handler}
use chain_data_service.Api.Route.{check_address}
use chain_data_service.Api.Route
use chain_data_service.Api.Router.{
  Outside, State, answers, serve, respond_with, create_router, get_page, with_query,
}
use chain_data_service.Blockchain.Processor.{
  run, process_batch, process_tracked, process_transaction_batch, store, register_all,
  addresses_to_register, attempt,
}
use chain_data_service.Db.Exec.{exec}
use chain_data_service.Db.Tables.{
  matches, involves, is_text, count_address, select_rows, insert_transaction, upsert,
}
use chain_data_service.Db.Address.{add_address, get_all_tracked_addresses, is_address_tracked}
use chain_data_service.Db.Transaction.{
  to_row, of_row, count_rows, select_page, limit_rows, offset_rows, query_count, query_rows,
  query_database, read_cache, write_cache, or_query, add_transactions, insert_and_commit,
  insert_all,
}
use chain_data_service.Db.Transaction as Stored
use chain_data_service.Program.Life.{request, batch, happen}
use chain_data_service.Db.Past.{IsAnswered}
use chain_data_service.Program.Life.Flights.{
  Asked, Flight, answered, Event, whole, begins, goes_on, Serving, steps, step, advance, advance_at,
  after_read, after_count, after_rows,
}
use chain_data_service.Program.Life.Pages.{IsMoment, steps-page}
use chain_data_service.Fixtures.{
  payment, tables, calm_world, keep_nothing, none_found, by_time, decode, node, set_order,
}
use chain_data_service.Witnesses.Routed.{outside, first_fit, first, fits, page}
use chain_data_service.Witnesses.Served as Served

unfoldable same_int : ℤ → ℤ → Bool
same_int (pos m) (pos n) = m == n
same_int (negsuc m) (negsuc n) = m == n
same_int _ _ = false

unfoldable same_key : CacheKey → CacheKey → Bool
unfolding same_int
same_key (transaction_query_key a s e o l) (transaction_query_key b t f p m) =
    str_eq a b && (same_int s t && (same_int e f && (same_int o p && same_int l m)))
same_key _ _ = false

same_int_sound : (m n : ℤ) → same_int m n ≡ true → m ≡ n
unfolding same_int
same_int_sound (pos m) (pos n) h = ground (arith, h)
same_int_sound (negsuc m) (negsuc n) h = ground (arith, h)
same_int_sound (pos m) (negsuc n) h = absurd (ground (arith, h))
same_int_sound (negsuc m) (pos n) h = absurd (ground (arith, h))

same_key_sound : (k j : CacheKey) → same_key k j ≡ true → k ≡ j
unfolding same_key
same_key_sound (transaction_query_key a s e o l) (transaction_query_key b t f p m) h = ground (
  arith,
  h,
  eq_iff a b,
  same_int_sound s t,
  same_int_sound e f,
  same_int_sound o p,
  same_int_sound l m,
)
same_key_sound (transaction_query_key a s e o l) (address_tracked_key b) h =
    absurd (ground (arith, h))
same_key_sound (address_tracked_key a) j h = absurd (ground (arith, h))

module _ {V : Type 0} where
  -- The entry that was stored last, if it is the one that is asked for.
  unfoldable lookup : CacheKey → Option (CacheKey × V) → Option V
  unfolding same_key
  lookup k none = none
  lookup k (some (j, v)) = if same_key k j then some v else none

  lookup-insert :
      (k j : CacheKey) (v w : V) (s : Option (CacheKey × V))
      → lookup k (some (j, v)) ≡ some w
      → ((k ≡ j) × (w ≡ v)) ⊎ ((k ≢ j) × (lookup k s ≡ some w))
  unfolding lookup
  lookup-insert k j v w s h = elim (Bool-cases (same_key k j)) [
    | inl e ↦ inl (same_key_sound k j e, ground (arith, e, h))
    | inr e ↦ absurd (ground (arith, e, h))
  ]

  unfoldable keep_last : Moka CacheKey V
  unfolding lookup
  keep_last = record {
    Store = Option (CacheKey × V);
    build = λ c d. none;
    get = lookup;
    insert = λ k v s. some (k, v);
    invalidate = λ k s. none;
    invalidate_entries_if = λ p s. (ok tt, none);
    get-build = λ c d k. refl;
    get-insert = lookup-insert;
    get-invalidate = λ k j w s e. none_found w e;
  }

abbrev remembering : Outside ℕ
remembering = record outside { pages = keep_last; transactions_query = λ q. ok Served.request }

abbrev begun : State remembering
unfolding keep_last keep_nothing
begun = calm_world tables (record {
  transaction_cache = record { cache = none; default_ttl = 60 };
  address_cache = record { cache = tt };
})

begun-IsCoherent : IsCoherent by_time keep_last keep_nothing begun.db begun.cache
unfolding keep_last keep_nothing begun Transaction.get lookup
begun-IsCoherent a start_time end_time offset limit found e = none_found found e

abbrev asked : Asked
asked = record {
  address = "A";
  start_time = pos 0;
  end_time = pos 200;
  offset = pos 0;
  limit = pos 10;
  now = pos 12;
}

-- A page is read and kept; then the second call has counted when the payment is stored.
abbrev events : List (Event ℕ)
events =
    whole (request page)
    ∷ begins asked
    ∷ goes_on 0
    ∷ begins (record asked { limit = pos 20 })
    ∷ goes_on 1
    ∷ goes_on 1
    ∷ whole (batch 0 (payment ∷ []))
    ∷ goes_on 1
    ∷ goes_on 1
    ∷ []

abbrev serving : Serving remembering
serving = record { world = begun; flights = [] }

-- The first call has no transaction, from the cache; the second has the payment, and the total count
-- from before it.
returned :
    map
      (λ (f : Flight ℕ). f.stage)
      (steps remembering first_fit node pos set_order events serving).flights
    ≡ answered ([], pos 0) ∷ answered (payment ∷ [], pos 0) ∷ []
unfolding steps step advance_at advance after_read after_count after_rows query_count query_rows
    happen serve respond_with create_router get_page with_query first_fit first fits answers
    Route.get_transactions check_address handler validate_solana_address is_blank decode from_str
    validate_timestamp validate_offset validate_limit is_address_tracked count_address
    Stored.get_transactions query_database exec read_cache write_cache or_query Transaction.get
    Transaction.insert keep_last keep_nothing by_time select_page select_rows count_rows matches
    involves is_text to_row of_row filter_by limit_rows offset_rows take_rows drop_rows run
    process_batch process_tracked process_transaction_batch store register_all addresses_to_register
    attempt node set_order get_all_tracked_addresses add_address add_transactions insert_and_commit
    insert_all insert_transaction upsert filter_map mem wrap_i64 to_i64 pattern_of ◌-ℤ◌
    transaction_query
returned = refl

steps-page_example :
    All
      (λ f.
        (found : Page ℕ)
        → f.stage ≡ answered found
        → IsAnswered by_time keep_last keep_nothing
            (IsMoment remembering first_fit node pos set_order events serving)
            found
            f.asked.address
            f.asked.start_time
            f.asked.end_time
            f.asked.offset
            f.asked.limit)
      (steps remembering first_fit node pos set_order events serving).flights
steps-page_example =
    steps-page remembering first_fit node pos set_order events begun begun-IsCoherent
