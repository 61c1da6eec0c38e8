-- ===== src/Blockchain/Polling/History.antt =====
-- The historical polling of src/blockchain/polling.rs. Its loop runs on fuel, with `none` when that
-- is used up.
pub mod Ends
pub mod Adds
use mathlib.Core.Option.{get_or}
use chain_data_service.Base.{
  ℕ, zero, suc, ◌+◌, ◌≤◌, ◌<◌, ◌≡◌, ◌≢◌, refl, String, Bool, true, false, Option, none, some, List,
  [], ◌∷◌, map, Result, ℤ, pos, ◌-ℤ◌, wrap_i64, ltb_ℤ, length, mem, filter_by, ltb, not,
  if◌then◌else◌, All, arith, ◌||◌, str_eq, eq_iff,
}
use chain_data_service.Db.Tables.{SqlxError}
use chain_data_service.Blockchain.Batch.{DrainOrder}
use chain_data_service.Blockchain.Services.{Services, SignatureInfo}
use chain_data_service.Blockchain.Processor.{insert, collect}
use chain_data_service.Blockchain.Polling.{Poll, addresses_of, process_transaction_signatures}

-- The last of a list that begins with `sig`.
unfoldable pub last : SignatureInfo → List SignatureInfo → SignatureInfo
last sig [] = sig
last sig (next ∷ rest) = last next rest

-- The signatures of a page that are not in the seen set.
unfoldable pub new_signatures : List String → List SignatureInfo → List String
unfolding filter_by mem
new_signatures seen page =
    map (λ (sig : SignatureInfo). sig.signature)
      (filter_by (λ (sig : SignatureInfo). not (mem sig.signature seen)) page)

-- `now - oldest_tx_time > max_age_secs`
unfoldable pub is_too_old : ℤ → SignatureInfo → Bool
unfolding wrap_i64 ◌-ℤ◌
is_too_old now oldest = ltb_ℤ (pos 7776000) (wrap_i64 (now -ℤ get_or oldest.block_time (pos 0)))

abbrev add_count : {P : Type 0} → ℕ → Option (ℕ × P) → Option (ℕ × P)
add_count n none = none
add_count n (some (k, p)) = some (n + k, p)

module _ {F : Type 0} (services : Services F) (drain : DrainOrder F) (clock : ℕ → ℕ) (now : ℤ) where
  open services use {get_signatures}

  -- What a round does with its page: the end of the loop, or the count and what the next round
  -- starts from.
  pub data Round : Type 0 where
    stop : ℕ → Poll F → Round
    go_on : ℕ → (before : String) (seen : List String) → Poll F → Round

  -- A round whose page has new signatures.
  unfoldable pub round_with :
      List SignatureInfo → String → List String → List String → Poll F → Round
  unfolding process_transaction_signatures collect
  round_with page before seen [] p = stop 0 p
  round_with page before seen (s ∷ ss) p =
      let (count, p') = process_transaction_signatures services drain clock (s ∷ ss) p in
      if ltb (length page) 50 then stop count p' else go_on count before (collect seen (s ∷ ss)) p'

  unfoldable pub round_of : Option (List SignatureInfo) → List String → Poll F → Round
  unfolding round_with last is_too_old new_signatures
  round_of none seen p = stop 0 p
  round_of (some []) seen p = stop 0 p
  round_of (some (sig ∷ sigs)) seen p =
      if is_too_old now (last sig sigs)
      then stop 0 p
      else round_with (sig ∷ sigs) (last sig sigs).signature seen (new_signatures seen (sig ∷ sigs))
          p

  unfoldable pub process_historical_from :
      ℕ → String → Option String → List String → Poll F → Option (ℕ × Poll F)
  unfolding round_of
  process_historical_from zero address before seen p = none
  process_historical_from (suc fuel) address before seen p =
      elim (round_of (get_signatures p.sent address before 50) seen
        (record p { sent = suc p.sent })) [
          | stop count p' ↦ some (count, p')
          | go_on count before' seen' p' ↦
              add_count count (process_historical_from fuel address (some before') seen' p')
        ]

  unfoldable pub process_historical_address : ℕ → String → Poll F → Option (ℕ × Poll F)
  unfolding process_historical_from
  process_historical_address fuel address p = process_historical_from fuel address none [] p

  -- The loop over the addresses.
  unfoldable pub process_historical : ℕ → List String → Poll F → Option (ℕ × Poll F)
  unfolding process_historical_address
  process_historical fuel [] p = some (0, p)
  process_historical fuel (address ∷ rest) p = elim (process_historical_address fuel address p) [
    | none ↦ none
    | some (count, p') ↦ add_count count (process_historical fuel rest p')
  ]

  unfoldable pub poll_historical_transactions :
      ℕ → Result (List String) SqlxError → Poll F → Option (ℕ × Poll F)
  unfolding addresses_of process_historical
  poll_historical_transactions fuel tracked p = process_historical fuel (addresses_of tracked) p

-- The task of the historical polling, until the shutdown: the time and the addresses at each tick.
module _ {F : Type 0} (services : Services F) (drain : DrainOrder F) (clock : ℕ → ℕ) where
  unfoldable pub historical_loop :
      ℕ → List (ℤ × Result (List String) SqlxError) → Poll F → Option (Poll F)
  unfolding poll_historical_transactions
  historical_loop fuel [] p = some p
  historical_loop fuel ((now, tracked) ∷ rest) p =
      elim (poll_historical_transactions services drain clock now fuel tracked p) [
        | none ↦ none
        | some (count, p') ↦ historical_loop fuel rest p'
      ]
