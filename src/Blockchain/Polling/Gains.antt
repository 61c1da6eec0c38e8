-- ===== src/Blockchain/Polling/Gains.antt =====
-- What the two loops of `start_polling` in src/blockchain/polling.rs leave in the batch manager.
use mathlib.Core.List.{Perm}
use mathlib.Core.List.Perm
use chain_data_service.Base.{
  ℕ, ◌+◌, ◌≡◌, refl, String, Option, none, some, List, [], ◌∷◌, ◌++◌, Result, ℤ, length,
  append_assoc, All, All-append, inl, inr, Bool-cases, ltb, leb,
}
use chain_data_service.Models.{Transaction}
use chain_data_service.Db.Tables.{SqlxError}
use chain_data_service.Blockchain.Batch.{DrainOrder, BatchManager}
use chain_data_service.Blockchain.Batch.Conserve.{held, IsOpen}
use chain_data_service.Blockchain.Services.Laws.{IsYielded, fetch_all-IsYielded}
use chain_data_service.Blockchain.Services.{Services, SignatureInfo, fetch_all}
use chain_data_service.Blockchain.Processor.{SetOrder}
use chain_data_service.Blockchain.Polling.{
  Poll, process_transaction_signatures, poll_ranges, slot_ranges, poll_new_transactions,
  addresses_of, poll_tick, dedup, sort_unstable, signatures_in,
}
use chain_data_service.Blockchain.Polling.Added.{
  process_transaction_signatures-perm, process_transaction_signatures-IsOpen,
}
use chain_data_service.Blockchain.Polling.Loop.{Tick, main_loop}
use chain_data_service.Blockchain.Polling.History.{
  Round, stop, go_on, round_with, round_of, is_too_old, last,
}

module _ {F : Type 0} (services : Services F) where
  -- The channel is open, and the manager holds what it held and transactions that the node yields.
  abbrev pub Gains : BatchManager F → BatchManager F → Type 0
  Gains m n =
      IsOpen n
      × (ts : List (Transaction F)) × Perm (held n) (ts ++ held m)
      × All (IsYielded services) ts

  pub Gains-refl : (m : BatchManager F) → IsOpen m → Gains m m
  Gains-refl m h = (h, [], Perm.rfl, tt)

  pub Gains-trans : (m n o : BatchManager F) → Gains m n → Gains n o → Gains m o
  Gains-trans m n o (h, ts, e, y) (k, us, f, z) = (
    k,
    us ++ ts,
    rw (append_assoc us ts (held m)) (Perm.trans f (Perm.append_left us e)),
    All-append (IsYielded services) us ts z y,
  )

  module _ (drain : DrainOrder F) (clock : ℕ → ℕ) where
    process_transaction_signatures-Gains :
        (signatures : List String) (p : Poll F)
        → IsOpen p.manager
        → Gains p.manager
            (process_transaction_signatures services drain clock signatures p).1.manager
    process_transaction_signatures-Gains signatures p h = (
      process_transaction_signatures-IsOpen services drain clock signatures p h,
      fetch_all services p.sent signatures,
      (process_transaction_signatures-perm services drain clock signatures p h).1,
      fetch_all-IsYielded services p.sent signatures,
    )

    poll_ranges-Gains :
        (addresses : List String) (ranges : List (ℕ × ℕ)) (p : Poll F)
        → IsOpen p.manager
        → Gains p.manager (poll_ranges services drain clock addresses ranges p).1.manager
    unfolding poll_ranges
    poll_ranges-Gains addresses [] p h = Gains-refl p.manager h
    poll_ranges-Gains addresses ((first, last) ∷ rest) p h =
        let asked : Poll F = record p { sent = p.sent + length addresses } in
        let all =
          dedup (sort_unstable (signatures_in services drain clock p.sent first last addresses)) in
        let here = process_transaction_signatures-Gains all asked h in
        let next = (process_transaction_signatures services drain clock all asked).1 in
        Gains-trans _ _ _ here (poll_ranges-Gains addresses rest next here.0)

    poll_new_transactions-Gains :
        (set : SetOrder) (addresses : List String) (first last : ℕ) (p : Poll F)
        → IsOpen p.manager
        → (tracked : Result (List String) SqlxError) → addresses_of tracked ≡ addresses
        → Gains p.manager
            (poll_new_transactions services drain clock set tracked first last p).1.manager
    unfolding poll_new_transactions
    poll_new_transactions-Gains set [] first last p h tracked e =
        rw (e, poll_new_transactions) (Gains-refl p.manager h)
    poll_new_transactions-Gains set (a ∷ rest) first last p h tracked e =
        rw (e, poll_new_transactions) (poll_ranges-Gains _ (slot_ranges first last) p h)

    poll_tick-Gains :
        (set : SetOrder) (tracked : Result (List String) SqlxError) (latest : Option ℕ)
        (current : ℕ) (p : Poll F)
        → IsOpen p.manager
        → Gains p.manager (poll_tick services drain clock set tracked latest current p).1.manager
    unfolding poll_tick
    poll_tick-Gains set tracked none current p h = Gains-refl p.manager h
    poll_tick-Gains set tracked (some latest) current p h = elim (Bool-cases (leb latest current)) [
      | inl e ↦ rw e (Gains-refl p.manager h)
      | inr e ↦
          rw e
            (poll_new_transactions-Gains set (addresses_of tracked) current latest p h tracked refl)
    ]

    -- While the channel to the workers is open, a run of the main loop, whatever the node and the
    -- database answer, leaves it open, loses nothing that the batch manager holds, and adds
    -- only transactions that the node yields.
    pub main_loop-Gains :
        (set : SetOrder) (ticks : List Tick) (current : ℕ) (p : Poll F)
        → IsOpen p.manager
        → Gains p.manager (main_loop services drain clock set ticks current p).1.manager
    unfolding main_loop
    main_loop-Gains set [] current p h = Gains-refl p.manager h
    main_loop-Gains set (t ∷ ts) current p h =
        let first = poll_tick-Gains set t.addresses t.latest_slot current p h in
        let next = poll_tick services drain clock set t.addresses t.latest_slot current p in
        Gains-trans _ _ _ first (main_loop-Gains set ts next.0 next.1 first.0)

    module _ (now : ℤ) where
      unfoldable pub round_poll : Round services drain clock now → Poll F
      round_poll (stop count p) = p
      round_poll (go_on count before seen p) = p

      round_with-Gains :
          (page : List SignatureInfo) (before : String) (seen new : List String) (p : Poll F)
          → IsOpen p.manager
          → Gains p.manager
              (round_poll (round_with services drain clock now page before seen new p)).manager
      unfolding round_with round_poll
      round_with-Gains page before seen [] p h = Gains-refl p.manager h
      round_with-Gains page before seen (s ∷ ss) p h =
          let all = process_transaction_signatures-Gains (s ∷ ss) p h in
          elim (Bool-cases (ltb (length page) 50)) [ inl e ↦ rw e all | inr e ↦ rw e all ]

      pub round_of-Gains :
          (answer : Option (List SignatureInfo)) (seen : List String) (p : Poll F)
          → IsOpen p.manager
          → Gains p.manager (round_poll (round_of services drain clock now answer seen p)).manager
      unfolding round_of round_poll
      round_of-Gains none seen p h = Gains-refl p.manager h
      round_of-Gains (some []) seen p h = Gains-refl p.manager h
      round_of-Gains (some (sig ∷ sigs)) seen p h =
          elim (Bool-cases (is_too_old now (last sig sigs))) [
            | inl e ↦ rw e (Gains-refl p.manager h)
            | inr e ↦ rw e (round_with-Gains (sig ∷ sigs) _ seen _ p h)
          ]
