-- ===== src/Witnesses/Answered.antt =====
-- From the node to the answer, at a node that knows one transaction and a request for "A".
use mathlib.Core.List.{Mem, filter_map}
use chain_data_service.Base.{
  ℕ, List, [], ◌∷◌, ◌≡◌, ◌≤ℤ◌, refl, ok, pos, All, arith, filter_by, flatten, is_blank, from_str,
  mem, wrap_i64, pattern_of, to_i64, ◌-ℤ◌, drop_rows, take_rows, subst, sym,
}
use chain_data_service.Models
use chain_data_service.Models.{Transaction}
use chain_data_service.Db.Observed.{IsWithin}
use chain_data_service.Blockchain.Extract.{
  extract_transaction, build, parsed_of, extract_transfer_details, first_instruction, infer_from,
  scan_balances, note_change, change_of, opposite,
}
use chain_data_service.Blockchain.Services.{fetch}
use chain_data_service.Validation.{
  validate_solana_address, validate_timestamp, validate_offset, validate_limit,
}
use chain_data_service.Db.Tables.{count_address, select_rows, insert_transaction, upsert}
use chain_data_service.Db.Address.{add_address, get_all_tracked_addresses}
use chain_data_service.Db.Exec.{World, exec}
use chain_data_service.Db.Transaction.{
  to_row, count_rows, add_transactions, insert_and_commit, insert_all,
}
use chain_data_service.Db.Coherence.{IsCoherent}
use chain_data_service.Cache.Address.{AppCache}
use chain_data_service.Cache.Transaction
use chain_data_service.Blockchain.Processor.{
  run, process_batch, process_tracked, process_transaction_batch, store, register_all,
  addresses_to_register, attempt,
}
use chain_data_service.Blockchain.Pipeline.Served.{run-served}
use chain_data_service.Api.Response.{with_total_count}
use chain_data_service.Api.Route.{get_transactions}
use chain_data_service.Fixtures.{
  payment, tables, calm_world, caches, keep_nothing, by_time, decode, none_found, node, set_order,
}
use chain_data_service.Witnesses.Pipeline.{yielded-AreGood}
use chain_data_service.Witnesses.Served.{to_json, request}

abbrev batches : List (List (Transaction ℕ))
batches = (payment ∷ []) ∷ []

abbrev stored : World ℕ (AppCache {F = ℕ} keep_nothing keep_nothing)
stored = (run decode pos node set_order 0 batches (calm_world tables caches)).1

stored-IsCoherent : IsCoherent by_time keep_nothing keep_nothing stored.db stored.cache
unfolding keep_nothing Transaction.get
stored-IsCoherent a start_time end_time offset limit page e = none_found page e

after_run : count_rows "A" (pos 0) (pos 200) stored.db ≡ pos 1
unfolding count_rows select_rows run process_batch process_tracked process_transaction_batch store
    register_all addresses_to_register attempt node set_order decode exec get_all_tracked_addresses
    add_address add_transactions insert_and_commit insert_all insert_transaction count_address
    upsert to_row validate_solana_address filter_map filter_by drop_rows take_rows mem is_blank
    wrap_i64 to_i64 pattern_of ◌-ℤ◌
after_run = refl

few : count_rows "A" (pos 0) (pos 200) stored.db ≤ℤ pos 10
few = subst (λ k. k ≤ℤ pos 10) (sym after_run) (omega arith)

run-served_example :
    (page : List (Transaction ℕ)) × ((get_transactions by_time keep_nothing keep_nothing to_json
        decode
        (pos 1000)
        request
        stored).0
      ≡ ok (with_total_count to_json page (count_rows "A" (pos 0) (pos 200) stored.db)))
    × All (λ t. IsWithin "A" (pos 0) (pos 200) (to_row t) → Mem t page) (flatten batches)
    × All (λ t. IsWithin "A" (pos 0) (pos 200) (to_row t)) page
unfolding node extract_transaction build parsed_of extract_transfer_details first_instruction
    infer_from scan_balances note_change change_of opposite to_i64 Models.new ◌-ℤ◌ wrap_i64
    pattern_of fetch validate_solana_address is_blank decode from_str validate_timestamp
    validate_offset validate_limit flatten count_address
run-served_example =
    run-served node (λ n s. refl) by_time keep_nothing keep_nothing to_json decode pos set_order 0
      batches (calm_world tables caches) request (pos 1000) (pos 0) (pos 200) 10 (λ n. refl)
      ((0, "s1", refl), tt) yielded-AreGood tt refl refl refl refl refl refl refl stored-IsCoherent
      few
