-- ===== src/Blockchain/Polling/Slots.antt =====
-- The ranges of slots that `poll_new_transactions` of src/blockchain/polling.rs goes through.
use chain_data_service.Base.{
  ℕ, zero, suc, ◌+◌, ◌-◌, ◌*◌, ◌/◌, ◌≤◌, ◌<◌, ◌≡◌, List, [], ◌∷◌, leb, ◌&&◌, if◌then◌else◌, arith,
}
use chain_data_service.Blockchain.Polling.{batch_end, ranges_from, slot_ranges}

-- How many ranges hold a slot.
unfoldable pub count_ranges : ℕ → List (ℕ × ℕ) → ℕ
count_ranges slot [] = 0
count_ranges slot ((first, last) ∷ rest) =
    if leb first slot && leb slot last then suc (count_ranges slot rest) else count_ranges slot rest

batch_end-eq :
    (first end_slot : ℕ)
    → first ≤ end_slot
    → end_slot < 18446744073709551607
    → batch_end first end_slot ≡ (if leb (first + 9) end_slot then first + 9 else end_slot)
unfolding batch_end
batch_end-eq first end_slot h k = ground arith

count_ranges-ranges_from :
    (n first end_slot slot : ℕ)
    → first + 10 * n ≤ end_slot
    → end_slot < first + 10 * n + 10
    → end_slot < 18446744073709551607
    → count_ranges slot (ranges_from (suc n) first end_slot)
      ≡ (if leb first slot && leb slot end_slot then 1 else 0)
unfolding count_ranges ranges_from
count_ranges-ranges_from zero first end_slot slot h k b =
    ground (arith, batch_end-eq first end_slot)
count_ranges-ranges_from (suc n) first end_slot slot h k b =
    ground
      (arith, batch_end-eq first end_slot, count_ranges-ranges_from n (first + 10) end_slot slot)

-- The ranges go through each slot from the start to the end exactly once, and through no other,
-- as long as the end is not one of the last nine `u64` values, where the sum wraps around.
pub slot_ranges-partition :
    (start_slot end_slot slot : ℕ)
    → end_slot < 18446744073709551607
    → count_ranges slot (slot_ranges start_slot end_slot)
      ≡ (if leb start_slot slot && leb slot end_slot then 1 else 0)
unfolding slot_ranges count_ranges
slot_ranges-partition start_slot end_slot slot b =
    ground (arith, count_ranges-ranges_from ((end_slot - start_slot) / 10) start_slot end_slot slot)
