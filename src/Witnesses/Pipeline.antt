-- ===== src/Witnesses/Pipeline.antt =====
-- Data for the witnesses of Blockchain.Pipeline: a node that knows one transaction.
use chain_data_service.Base.{
  ℕ, Option, none, some, refl, subst, to_i64, ◌-ℤ◌, wrap_i64, pattern_of, is_blank,
}
use chain_data_service.Models
use chain_data_service.Models.{Transaction}
use chain_data_service.Validation.{validate_solana_address}
use chain_data_service.Blockchain.Extract.{
  extract_transaction, build, parsed_of, extract_transfer_details, first_instruction, infer_from,
  scan_balances, note_change, change_of, opposite,
}
use chain_data_service.Blockchain.Services.{fetch}
use chain_data_service.Blockchain.Processor.Registers.{Names, IsGood, passes}
use chain_data_service.Blockchain.Polling.{Poll}
use chain_data_service.Blockchain.Services.Laws.{IsYielded}
use chain_data_service.Fixtures.{decode, manager, node}

abbrev pub poll : Poll ℕ
poll = record { manager = manager; sent = 0; readings = 0 }

abbrev pub clock : ℕ → ℕ
clock n = n

abbrev AreGood : Option (Transaction ℕ) → Type 0
AreGood none = Unit
AreGood (some t) = Names (IsGood decode) t

pub yielded-AreGood : (t : Transaction ℕ) → IsYielded node t → Names (IsGood decode) t
unfolding node extract_transaction build parsed_of extract_transfer_details first_instruction
    infer_from scan_balances note_change change_of opposite to_i64 Models.new ◌-ℤ◌ wrap_i64
    pattern_of fetch passes validate_solana_address decode is_blank Names
yielded-AreGood t (n, s, e) = subst AreGood e (refl, refl)
