-- ===== src/Witnesses/Worker.antt =====
-- What a worker of src/blockchain/worker_pool.rs delivers, at two batches.
use chain_data_service.Base.{
  ℕ, none, List, [], ◌∷◌, ◌≡◌, refl, ok, pos, to_i64, ◌-ℤ◌, wrap_i64, pattern_of, is_blank,
}
use chain_data_service.Models
use chain_data_service.Models.{Transaction}
use chain_data_service.Validation.{validate_solana_address}
use chain_data_service.Db.Tables.{Db}
use chain_data_service.Blockchain.Extract.{
  extract_transaction, build, parsed_of, extract_transfer_details, first_instruction, infer_from,
  scan_balances, note_change, change_of, opposite,
}
use chain_data_service.Blockchain.Services.{fetch, fetch_all}
use chain_data_service.Blockchain.Processor.{run}
use chain_data_service.Blockchain.Processor.Registers.{Names, passes}
use chain_data_service.Blockchain.Processor.Delivers.{Keeps, AllFrom, Delivered, run-Delivered}
use chain_data_service.Fixtures.{payment, tables, calm_world, decode, node, set_order}

abbrev batches : List (List (Transaction ℕ))
batches = (payment ∷ []) ∷ (payment ∷ payment ∷ []) ∷ []

run-Delivered_example :
    (db' : Db ℕ) × (k : ℕ) × (run decode pos node set_order 0 batches (calm_world tables tt)
      ≡ (ok tt, record { db = db'; fault = λ n. none; issued = k; cache = tt }))
    × Keeps node tables db'
    × AllFrom (Delivered node tables.tracked db'.transactions) 0 batches
unfolding node extract_transaction build parsed_of extract_transfer_details first_instruction
    infer_from scan_balances note_change change_of opposite to_i64 Models.new ◌-ℤ◌ wrap_i64
    pattern_of AllFrom fetch fetch_all passes validate_solana_address decode is_blank Names
run-Delivered_example =
    run-Delivered node decode pos set_order 0 batches (calm_world tables tt) (λ n. refl)
      (((refl, refl), tt), (((refl, refl), ((refl, refl), tt)), tt))
