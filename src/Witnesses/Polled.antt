-- ===== src/Witnesses/Polled.antt =====
-- What the main loop of src/blockchain/polling.rs adds to the batch manager, at a node with one
-- signature.
use chain_data_service.Base.{ℕ, some, List, [], ◌∷◌, refl, ok}
use chain_data_service.Blockchain.Polling.{Poll}
use chain_data_service.Blockchain.Polling.Loop.{Tick, main_loop}
use chain_data_service.Blockchain.Polling.Gains.{Gains, main_loop-Gains}
use chain_data_service.Fixtures.{manager, node, same_order, set_order}

abbrev poll : Poll ℕ
poll = record { manager = manager; sent = 0; readings = 0 }

abbrev clock : ℕ → ℕ
clock n = n

abbrev ticks : List Tick
ticks =
    record { addresses = ok ("A" ∷ "B" ∷ []); latest_slot = some 5 }
    ∷ record { addresses = ok ("A" ∷ []); latest_slot = some 9 }
    ∷ []

main_loop-Gains_example :
    Gains node manager (main_loop node same_order clock set_order ticks 3 poll).1.manager
main_loop-Gains_example = main_loop-Gains node same_order clock set_order ticks 3 poll refl
