-- ===== src/Blockchain/Polling.antt =====
-- src/blockchain/polling.rs, with calls of add_transaction that return: each takes the mutex
-- around the batch manager, whose state is passed on. In the program they block once the
-- manager's task has the mutex (Blockchain.System), so what is said here is what the polling does
-- if they do not. A `Poll` counts the requests that were sent, which `services` answers by their
-- number, and the transactions that were added, for which `clock` reads the time. The calls of
-- `sleep` and the log have no effect on the state.
pub mod History
pub mod Slots
pub mod Dedup
pub mod Added
pub mod Loop
pub mod Gains
use chain_data_service.Base.{
  ℕ, zero, suc, ◌+◌, ◌-◌, ◌*◌, ◌/◌, ◌%◌, ◌<◌, min, String, Bool, true, false, Option, none, some,
  List, [], ◌∷◌, ◌++◌, map, Result, ok, err, ℤ, pos, ◌-ℤ◌, ltb_ℤ, length, mem, filter_by, leb, ltb,
  ◌==◌, ◌&&◌, ◌||◌, not, if◌then◌else◌, codes, str_eq,
}
use mathlib.Core.Option.{get_or}
use mathlib.Core.Option
use chain_data_service.Models.{Transaction}
use chain_data_service.Db.Tables.{SqlxError}
use chain_data_service.Blockchain.Batch.{BatchManager, DrainOrder, add_transaction}
use chain_data_service.Blockchain.Services.{Services, SignatureInfo, chunks, fetch_all}
use chain_data_service.Blockchain.Processor.{SetOrder, collect}

-- The ranges of `(start_slot..=end_slot).step_by(10)`, with `u64` arithmetic that wraps around.
unfoldable pub batch_end : ℕ → ℕ → ℕ
batch_end batch_start end_slot =
    min (((batch_start + 10) % 18446744073709551616 + 18446744073709551615) % 18446744073709551616)
      end_slot

unfoldable pub ranges_from : ℕ → ℕ → ℕ → List (ℕ × ℕ)
unfolding batch_end
ranges_from zero batch_start end_slot = []
ranges_from (suc n) batch_start end_slot =
    (batch_start, batch_end batch_start end_slot) ∷ ranges_from n (batch_start + 10) end_slot

unfoldable pub slot_ranges : ℕ → ℕ → List (ℕ × ℕ)
unfolding ranges_from
slot_ranges start_slot end_slot =
    if leb start_slot end_slot
    then ranges_from (suc ((end_slot - start_slot) / 10)) start_slot end_slot
    else []

-- The order of texts, by code points.
unfoldable pub before_codes : List ℕ → List ℕ → Bool
before_codes [] ds = true
before_codes (c ∷ cs) [] = false
before_codes (c ∷ cs) (d ∷ ds) = ltb c d || c == d && before_codes cs ds

unfoldable pub insert_sorted : String → List String → List String
unfolding before_codes
insert_sorted a [] = a ∷ []
insert_sorted a (x ∷ xs) =
    if before_codes (codes a) (codes x) then a ∷ x ∷ xs else x ∷ insert_sorted a xs

-- `sort_unstable`: texts that the order does not tell apart are equal.
unfoldable pub sort_unstable : List String → List String
unfolding insert_sorted
sort_unstable [] = []
sort_unstable (x ∷ xs) = insert_sorted x (sort_unstable xs)

unfoldable pub dedup_after : String → List String → List String
dedup_after a [] = []
dedup_after a (x ∷ xs) = if str_eq x a then dedup_after a xs else x ∷ dedup_after x xs

-- `Vec::dedup`
unfoldable pub dedup : List String → List String
unfolding dedup_after
dedup [] = []
dedup (x ∷ xs) = x ∷ dedup_after x xs

unfoldable pub in_slots : ℕ → ℕ → SignatureInfo → Bool
in_slots batch_start batch_end sig = leb batch_start sig.slot && leb sig.slot batch_end

-- The addresses of the tracked set that a query read, or none when it failed.
unfoldable pub addresses_of : Result (List String) SqlxError → List String
addresses_of (ok addresses) = addresses
addresses_of (err e) = []

-- The batch manager, the number of requests sent, and the number of transactions added.
pub record Poll (F : Type 0) : Type 0 where
  pub manager : BatchManager F
  pub sent : ℕ
  pub readings : ℕ

module _ {F : Type 0} (services : Services F) (drain : DrainOrder F) (clock : ℕ → ℕ) where
  open services use {get_signatures}

  unfoldable pub add_all : List (Transaction F) → Poll F → Poll F
  unfolding add_transaction
  add_all [] p = p
  add_all (t ∷ ts) p = add_all ts (record p {
    manager = add_transaction drain (clock p.readings) t p.manager;
    readings = suc p.readings;
  })

  -- A chunk: the requests for its transactions, and what they yield added.
  unfoldable pub process_chunk : List String → Poll F → ℕ × Poll F
  unfolding fetch_all add_all
  process_chunk chunk p =
      let chunk_transactions = fetch_all services p.sent chunk in
      (
        length chunk_transactions,
        add_all chunk_transactions (record p { sent = p.sent + length chunk }),
      )

  unfoldable pub process_chunks : List (List String) → Poll F → ℕ × Poll F
  unfolding process_chunk
  process_chunks [] p = (0, p)
  process_chunks (chunk ∷ rest) p =
      let (count, p') = process_chunk chunk p in
      let (processed, p'') = process_chunks rest p' in (count + processed, p'')

  -- It has no error to return: a request that fails is logged.
  unfoldable pub process_transaction_signatures : List String → Poll F → ℕ × Poll F
  unfolding chunks process_chunks
  process_transaction_signatures signatures p = process_chunks (chunks 10 signatures) p

  -- The signatures of each address in a range of slots, from the n-th request on.
  unfoldable pub signatures_in : ℕ → ℕ → ℕ → List String → List String
  unfolding filter_by in_slots
  signatures_in n batch_start batch_end [] = []
  signatures_in n batch_start batch_end (address ∷ rest) =
      elim (get_signatures n address none 100) [
        | none ↦ signatures_in (suc n) batch_start batch_end rest
        | some signatures ↦
            map (λ (sig : SignatureInfo). sig.signature)
              (filter_by (in_slots batch_start batch_end) signatures)
            ++ signatures_in (suc n) batch_start batch_end rest
      ]

  -- The loop over the ranges of slots.
  unfoldable pub poll_ranges : List String → List (ℕ × ℕ) → Poll F → ℕ × Poll F
  unfolding signatures_in sort_unstable dedup process_transaction_signatures
  poll_ranges addresses [] p = (0, p)
  poll_ranges addresses ((batch_start, batch_end) ∷ rest) p =
      let all_signatures =
        dedup (sort_unstable (signatures_in p.sent batch_start batch_end addresses)) in
      let (count, p') =
        process_transaction_signatures all_signatures
          (record p { sent = p.sent + length addresses }) in
      let (total, p'') = poll_ranges addresses rest p' in (count + total, p'')

  -- A query for the addresses that fails, and one that finds none, end the call with `Ok(0)`.
  unfoldable pub poll_new_transactions :
      SetOrder → Result (List String) SqlxError → (start_slot end_slot : ℕ) → Poll F → ℕ × Poll F
  unfolding addresses_of collect slot_ranges poll_ranges
  poll_new_transactions set tracked start_slot end_slot p = elim (addresses_of tracked) [
    | [] ↦ (0, p)
    | address ∷ rest ↦
        poll_ranges (set.iterate (collect [] (address ∷ rest))) (slot_ranges start_slot end_slot) p
  ]

  -- One tick of the main loop, with the answer to `get_slot`: the current slot moves on.
  unfoldable pub poll_tick :
      SetOrder → Result (List String) SqlxError → Option ℕ → ℕ → Poll F → ℕ × Poll F
  unfolding poll_new_transactions
  poll_tick set tracked none current_slot p = (current_slot, p)
  poll_tick set tracked (some latest_slot) current_slot p =
      if leb latest_slot current_slot
      then (current_slot, p)
      else (latest_slot, (poll_new_transactions set tracked current_slot latest_slot p).1)
