-- ===== src/Witnesses/Chain.antt =====
-- The theorems on src/blockchain, and on consistent tables, at concrete events and answers.
use mathlib.Core.List.{Perm}
use chain_data_service.Base.{
  ℕ, ◌≤◌, some, List, [], ◌∷◌, ◌≡◌, ◌↔◌, ◌⊎◌, refl, pos, not, to_i64, ◌-ℤ◌, wrap_i64, pattern_of,
  flatten, arith, true,
}
use chain_data_service.Models
use chain_data_service.Models.{Transaction}
use chain_data_service.Db.Invariant.{upsert-IsConsistent, IsConsistent, count_signature}
use chain_data_service.Db.Tables.{Db, upsert, count_address, is_text}
use chain_data_service.Blockchain.Batch.{
  BatchManager, Event, add, force, tick, cancelled, start, run_loop,
}
use chain_data_service.Blockchain.Batch.Conserve.{held, added, start-perm, all_pending}
use chain_data_service.Blockchain.Batch.Bounds.{IsValid, run_loop-IsValid, cancelled_empties_iff}
use chain_data_service.Blockchain.Extract.{
  extract_transaction, build, parsed_of, extract_transfer_details, first_instruction, infer_from,
  scan_balances, key_at, UiParsedMessage, UiTransactionStatusMeta, json_transaction, parsed_message,
  note_change, change_of, opposite,
}
use chain_data_service.Blockchain.Extract.Laws.{extract_transaction-some}
use chain_data_service.Blockchain.Lock.{State, initial, manager_task, in_start}
use chain_data_service.Blockchain.Polling.{Poll, slot_ranges}
use chain_data_service.Blockchain.Polling.Slots.{count_ranges, slot_ranges-partition}
use chain_data_service.Fixtures.{payment, tables, same_order, manager, node, no_json, tx_data}

abbrev events : List (Event ℕ)
events = add 1 payment ∷ tick 2 ∷ add 3 payment ∷ force 4 ∷ []

start-perm_example : Perm (held (start same_order 0 events manager)) (payment ∷ payment ∷ [])
unfolding added held flatten
start-perm_example = start-perm same_order 0 events manager refl

manager-IsValid : IsValid manager
unfolding flatten
manager-IsValid = record { counted = refl; bounded = omega arith }

run_loop-IsValid_example : IsValid (run_loop same_order events manager)
run_loop-IsValid_example = run_loop-IsValid same_order events manager manager-IsValid

abbrev holding : BatchManager ℕ
holding = record manager {
  buffer = record { pending = ("A", payment ∷ []) ∷ []; total_size = 1; last_flush = 10 };
}

holding-IsValid : IsValid holding
unfolding flatten
holding-IsValid = record { counted = refl; bounded = omega arith }

cancelled_empties_iff_example :
    (all_pending (run_loop same_order (cancelled 12 ∷ []) holding).buffer.pending ≡ [])
    ↔ ((payment ∷ [] ≡ []) ⊎ (5 ≤ 2))
unfolding flatten
cancelled_empties_iff_example = cancelled_empties_iff same_order 12 [] holding holding-IsValid

abbrev poll : Poll ℕ
poll = record { manager = manager; sent = 0; readings = 0 }

abbrev clock : ℕ → ℕ
clock n = n

slot_ranges-partition_example : count_ranges 115 (slot_ranges 100 125) ≡ 1
slot_ranges-partition_example = slot_ranges-partition 100 125 115 (omega arith)

no_rows : Db ℕ
no_rows = record { tracked = []; transactions = [] }

no_rows-IsConsistent : IsConsistent no_rows
unfolding no_rows count_address count_signature
no_rows-IsConsistent = record {
  unique_addresses = λ a. omega arith;
  unique_signatures = λ s. omega arith;
  references = tt;
}

pub tables-IsConsistent : IsConsistent tables
unfolding upsert is_text no_rows
tables-IsConsistent =
    upsert-IsConsistent "B" (pos 2) _ (upsert-IsConsistent "A" (pos 1) no_rows no_rows-IsConsistent)

extract_transaction-some_example :
    (meta : UiTransactionStatusMeta) × (message' : UiParsedMessage no_json.Parsed) × (tx_data.meta
      ≡ some meta)
    × (tx_data.transaction ≡ json_transaction (parsed_message message'))
    × (key_at message'.account_keys 0 ≡ some "A")
    × (payment.signature ≡ "s1")
    × (pos 7 ≡ to_i64 7)
    × (pos 100 ≡ pos 100)
    × (true ≡ not meta.has_err)
unfolding node extract_transaction build parsed_of extract_transfer_details first_instruction
    infer_from scan_balances note_change change_of opposite to_i64 Models.new ◌-ℤ◌ wrap_i64
    pattern_of
extract_transaction-some_example =
    extract_transaction-some no_json node.to_sol node.parse_f64 "sys" "tok" "s1" tx_data payment
      refl

-- The spawned task locks first, and a flush check follows.
locked : State
locked = record initial { holder = some manager_task; phase = in_start }
