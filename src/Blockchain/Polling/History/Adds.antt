-- ===== src/Blockchain/Polling/History/Adds.antt =====
-- What the historical polling of src/blockchain/polling.rs leaves in the batch manager.
use chain_data_service.Base.{
  ℕ, zero, suc, ◌+◌, ◌<◌, ◌≡◌, refl, subst, String, Option, none, some, List, [], ◌∷◌, Result, ℤ,
  length, arith, mem, true, All, inl, inr, Option-cases,
}
use chain_data_service.Db.Tables.{SqlxError}
use chain_data_service.Blockchain.Batch.{DrainOrder}
use chain_data_service.Blockchain.Batch.Conserve.{IsOpen}
use chain_data_service.Blockchain.Services.{Services, SignatureInfo}
use chain_data_service.Blockchain.Polling.{Poll, addresses_of}
use chain_data_service.Blockchain.Polling.Gains.{
  Gains, Gains-refl, Gains-trans, round_poll, round_of-Gains,
}
use chain_data_service.Blockchain.Polling.History.{
  Round, stop, go_on, round_of, process_historical_from, process_historical_address,
  process_historical, poll_historical_transactions, historical_loop,
}
use chain_data_service.Blockchain.Polling.History.Ends.{process_historical_address-total}

module _ {F : Type 0} (services : Services F) where
  open services use {get_signatures}

  -- The signatures that the node lists for any address are among finitely many.
  abbrev pub IsBounded : List String → Type 0
  IsBounded universe =
      (address : String) (n : ℕ) (before : Option String) (page : List SignatureInfo)
      → get_signatures n address before 50 ≡ some page
      → All (λ (sig : SignatureInfo). mem sig.signature universe ≡ true) page

module _ {F : Type 0} (services : Services F) (drain : DrainOrder F) (clock : ℕ → ℕ) (now : ℤ) where
  open services use {get_signatures}

  abbrev Adds : Poll F → Poll F → Type 0
  Adds p q = Gains services p.manager q.manager

  process_historical_from-Gains :
      (fuel : ℕ) (address : String) (before : Option String) (seen : List String) (p : Poll F)
      (r : ℕ × Poll F)
      → IsOpen p.manager
      → process_historical_from services drain clock now fuel address before seen p ≡ some r
      → Adds p r.1
  unfolding process_historical_from round_poll
  process_historical_from-Gains zero address before seen p r h e = absurd (ground arith)
  process_historical_from-Gains (suc fuel) address before seen p r h e =
      by_round
        (round_of services drain clock now (get_signatures p.sent address before 50) seen asked)
        refl (round_of-Gains services drain clock now _ seen asked h)
        (λ before' seen' q t. process_historical_from-Gains fuel address before' seen' q t)
    where
      asked : Poll F
      asked = record p { sent = suc p.sent }

      by_round :
          (round : Round services drain clock now)
          → round_of services drain clock now
              (get_signatures p.sent address before 50)
              seen
              (record p { sent = suc p.sent })
            ≡ round
          → Gains services p.manager (round_poll services drain clock now round).manager
          → ((before' : Option String) (seen' : List String) (q : Poll F) (t : ℕ × Poll F)
              → IsOpen q.manager
              → process_historical_from services drain clock now fuel address before' seen' q
                ≡ some t
              → Adds q t.1)
          → Adds p r.1
      by_round (stop count q) f g rest =
          let same : (count, q) ≡ r = ground (arith, e, f) in subst (λ x. Adds p x.1) same g
      by_round (go_on count before' seen' q) f g rest =
          elim (Option-cases (
            process_historical_from services drain clock now fuel address (some before') seen' q)) [
              | inl none_ ↦ absurd (ground (arith, e, f, none_))
              | inr (t, some_) ↦
                  let same : (count + t.0, t.1) ≡ r = ground (arith, e, f, some_) in
                  let later = rest (some before') seen' q t g.0 some_ in
                  subst (λ x. Adds p x.1) same (Gains-trans services _ _ _ g later)
            ]

  process_historical_address-Adds :
      (fuel : ℕ) (address : String) (p : Poll F) (r : ℕ × Poll F)
      → IsOpen p.manager
      → process_historical_address services drain clock now fuel address p ≡ some r
      → Adds p r.1
  unfolding process_historical_address
  process_historical_address-Adds fuel address p r =
      process_historical_from-Gains fuel address none [] p r

  process_historical-Adds :
      (universe : List String) (fuel : ℕ) (addresses : List String) (p : Poll F)
      → IsBounded services universe
      → length universe < fuel
      → IsOpen p.manager
      → (r : ℕ × Poll F) × (process_historical services drain clock now fuel addresses p ≡ some r)
        × Adds p r.1
  unfolding process_historical
  process_historical-Adds universe fuel [] p bounded enough h =
      ((0, p), refl, Gains-refl services p.manager h)
  process_historical-Adds universe fuel (a ∷ rest) p bounded enough h =
      elim (Option-cases (process_historical_address services drain clock now fuel a p)) [
        | inl failed ↦ absurd (
            process_historical_address-total services drain clock now a universe (bounded a) fuel p
              enough failed)
        | inr (t, ended) ↦
            let first = process_historical_address-Adds fuel a p t h ended in
            let (r, later, adds) =
              process_historical-Adds universe fuel rest t.1 bounded enough first.0 in
            (
              (t.0 + r.0, r.1),
              rw (ended, process_historical, later) refl,
              Gains-trans services _ _ _ first adds,
            )
      ]

  poll_historical_transactions-Adds :
      (universe : List String) (fuel : ℕ) (tracked : Result (List String) SqlxError) (p : Poll F)
      → IsBounded services universe
      → length universe < fuel
      → IsOpen p.manager
      → (r : ℕ × Poll F) × (poll_historical_transactions services drain clock now fuel tracked p
          ≡ some r)
        × Adds p r.1
  unfolding poll_historical_transactions
  poll_historical_transactions-Adds universe fuel tracked p =
      process_historical-Adds universe fuel (addresses_of tracked) p

module _ {F : Type 0} (services : Services F) (drain : DrainOrder F) (clock : ℕ → ℕ) where
  -- With calls of add_transaction that return, as they do until the manager has the mutex: if the
  -- signatures that the node lists are among finitely many, every tick of the historical polling
  -- ends, whatever the pages: fuel of one more than there are signatures is enough. While
  -- the channel to the workers is open, the ticks leave it open, lose nothing that the batch
  -- manager holds, and add only transactions that the node yields.
  pub historical_loop-Adds :
      (universe : List String) (fuel : ℕ) (ticks : List (ℤ × Result (List String) SqlxError))
      (p : Poll F)
      → IsBounded services universe
      → length universe < fuel
      → IsOpen p.manager
      → (q : Poll F) × (historical_loop services drain clock fuel ticks p ≡ some q)
        × Gains services p.manager q.manager
  unfolding historical_loop
  historical_loop-Adds universe fuel [] p bounded enough h =
      (p, refl, Gains-refl services p.manager h)
  historical_loop-Adds universe fuel ((now, tracked) ∷ rest) p bounded enough h =
      let (t, ended, first) =
        poll_historical_transactions-Adds services drain clock now universe fuel tracked p bounded
          enough h in
      let (q, later, adds) = historical_loop-Adds universe fuel rest t.1 bounded enough first.0 in
      (q, rw (ended, historical_loop) later, Gains-trans services _ _ _ first adds)
