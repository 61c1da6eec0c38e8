-- ===== src/Witnesses/Service.antt =====
-- The theorems on the functions of src/db together, at small tables.
use mathlib.Core.List.{Perm}
use chain_data_service.Base.{ℕ, List, [], ◌∷◌, ◌++◌, ◌≡◌, refl, ok, pos, map, filter_by, arith}
use chain_data_service.Cache.Transaction
use chain_data_service.Models.{Transaction}
use chain_data_service.Db.Tables.{
  Db, references_ok, count_address, destination_ok, is_text, select_rows, matches, involves,
  has_signature,
}
use chain_data_service.Db.Transaction.{
  to_row, of_row, add_transactions, count_rows, get_transactions,
}
use chain_data_service.Db.Atomic.{stored, after_batch}
use chain_data_service.Db.Coherence.{IsCoherent}
use chain_data_service.Db.RoundTrip.{fresh, add_transactions-get_transactions}
use chain_data_service.Db.Service.{
  Command, track, untrack, ask, store_batch, perform_all, promise_all, view,
}
use chain_data_service.Db.Service.Refines.{perform_all-promise_all}
use chain_data_service.Fixtures.{
  payment, tables, calm_world, caches, keep_nothing, by_time, decode, none_found,
}

abbrev commands : List (Command ℕ)
commands = track (pos 9) "C" ∷ store_batch (payment ∷ []) ∷ untrack "A" ∷ untrack "C" ∷ ask "C" ∷ []

perform_all-promise_all_example :
    (
      (perform_all decode commands (calm_world tables tt)).0,
      view (perform_all decode commands (calm_world tables tt)).1.db,
    )
    ≡ promise_all decode commands (view tables)
perform_all-promise_all_example =
    perform_all-promise_all decode commands (calm_world tables tt) (λ n. refl)

caches-IsCoherent : (db : Db ℕ) → IsCoherent by_time keep_nothing keep_nothing db caches
unfolding keep_nothing caches Transaction.get
caches-IsCoherent db a start_time end_time offset limit page e = none_found page e

add_transactions-get_transactions_example :
    (page : List (Transaction ℕ)) × ((get_transactions by_time keep_nothing keep_nothing
        (pos 300)
        "A"
        (pos 0)
        (pos 200)
        (pos 0)
        (pos 10)
        (add_transactions (payment ∷ []) (calm_world tables caches)).1).0
      ≡ ok (page, count_rows "A" (pos 0) (pos 200) (after_batch (payment ∷ []) tables)))
    × Perm page (
        map of_row (select_rows "A" (pos 0) (pos 200) tables)
        ++ filter_by
            (λ t. matches "A" (pos 0) (pos 200) (to_row t))
            (fresh (payment ∷ []) tables.transactions))
unfolding references_ok count_address destination_ok is_text to_row count_rows select_rows matches
    involves stored filter_by has_signature
add_transactions-get_transactions_example =
    add_transactions-get_transactions by_time keep_nothing keep_nothing (pos 300) "A" (pos 0)
      (pos 200) 10 (payment ∷ []) (calm_world tables caches) (λ n. refl) (refl, tt)
      (caches-IsCoherent _) (omega arith)
