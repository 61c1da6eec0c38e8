-- ===== src/Blockchain/Polling/History/Ends.antt =====
-- The historical polling of src/blockchain/polling.rs ends: every round but the last sees a
-- signature for the first time.
use chain_data_service.Base.{
  ℕ, zero, suc, ◌≤◌, ◌<◌, ◌≡◌, ◌≢◌, refl, String, true, false, Option, none, some, List, [], ◌∷◌, ℤ,
  length, mem, All, arith, eq_iff, ◌⊎◌, inl, inr, if◌then◌else◌,
}
use chain_data_service.Blockchain.Batch.{DrainOrder}
use chain_data_service.Blockchain.Services.{Services, SignatureInfo}
use chain_data_service.Blockchain.Processor.{collect}
use chain_data_service.Blockchain.Processor.Sets.{mem-collect, mem-collect-head}
use chain_data_service.Blockchain.Polling.{Poll}
use chain_data_service.Blockchain.Polling.History.{
  Round, stop, go_on, round_with, round_of, new_signatures, process_historical_from,
  process_historical_address, last,
}

-- How many of the texts are not seen.
pub unseen : List String → List String → ℕ
unseen seen [] = 0
unseen seen (u ∷ us) = if mem u seen then unseen seen us else suc (unseen seen us)

module _ (s s' : List String) (grown : (b : String) → mem b s ≡ true → mem b s' ≡ true) where
  unseen_le : (us : List String) → unseen s' us ≤ unseen s us
  unfolding unseen
  unseen_le [] = omega arith
  unseen_le (u ∷ us) = ground (arith, unseen_le us, grown u)

  unseen_lt :
      (a : String) (us : List String)
      → mem a us ≡ true
      → mem a s ≡ false
      → mem a s' ≡ true
      → unseen s' us < unseen s us
  unfolding unseen mem
  unseen_lt a [] h p q = absurd (ground arith)
  unseen_lt a (u ∷ us) h p q = ground (arith, unseen_le us, unseen_lt a us, grown u, eq_iff u a)

unseen_le_length : (s us : List String) → unseen s us ≤ length us
unfolding unseen
unseen_le_length s [] = omega arith
unseen_le_length s (u ∷ us) = ground (arith, unseen_le_length s us)

new_signatures-head :
    (universe seen : List String) (page : List SignatureInfo) (a : String) (rest : List String)
    → All (λ (sig : SignatureInfo). mem sig.signature universe ≡ true) page
    → new_signatures seen page ≡ a ∷ rest
    → (mem a seen ≡ false) × (mem a universe ≡ true)
unfolding new_signatures
new_signatures-head universe seen [] a rest h e = absurd (ground arith)
new_signatures-head universe seen (sig ∷ page) a rest (p, h) e = (
  ground (arith, new_signatures-head universe seen page a rest h),
  ground (arith, new_signatures-head universe seen page a rest h),
)

module _ {F : Type 0} (services : Services F) (drain : DrainOrder F) (clock : ℕ → ℕ) (now : ℤ) where
  open services use {get_signatures}

  Round-cases :
      (r : Round services drain clock now)
      → ((c : ℕ) × (p : Poll F) × (r ≡ stop c p))
        ⊎ ((c : ℕ) × (b : String) × (seen : List String) × (p : Poll F) × (r ≡ go_on c b seen p))
  Round-cases (stop c p) = inl (c, p, refl)
  Round-cases (go_on c b seen p) = inr (c, b, seen, p, refl)

  round_with-go_on :
      (page : List SignatureInfo) (before : String) (seen new : List String) (p : Poll F) {c : ℕ}
      {b : String} {seen' : List String} {p' : Poll F}
      → round_with services drain clock now page before seen new p ≡ go_on c b seen' p'
      → (a : String) × (rest : List String) × (new ≡ a ∷ rest) × (seen' ≡ collect seen (a ∷ rest))
  unfolding round_with
  round_with-go_on page before seen [] p h = absurd (ground arith)
  round_with-go_on page before seen (a ∷ rest) p h = (a, rest, refl, ground arith)

  round_of-go_on :
      (universe : List String) (r : Option (List SignatureInfo)) (seen : List String) (p : Poll F)
      {c : ℕ} {b : String} {seen' : List String} {p' : Poll F}
      → ((page : List SignatureInfo)
          → r ≡ some page
          → All (λ (sig : SignatureInfo). mem sig.signature universe ≡ true) page)
      → round_of services drain clock now r seen p ≡ go_on c b seen' p'
      → unseen seen' universe < unseen seen universe
  unfolding round_of
  round_of-go_on universe none seen p all h = absurd (ground arith)
  round_of-go_on universe (some []) seen p all h = absurd (ground arith)
  round_of-go_on universe (some (sig ∷ sigs)) seen p {c} {b} {seen'} {p'} all h =
      let went : round_with services drain clock now (sig ∷ sigs) (last sig sigs).signature seen
            (new_signatures seen (sig ∷ sigs)) p
          ≡ go_on c b seen' p' =
        ground arith in
      let (a, rest, new, e) =
        round_with-go_on (sig ∷ sigs) _ seen (new_signatures seen (sig ∷ sigs)) p went in
      let (fresh, known) = new_signatures-head universe seen (sig ∷ sigs) a rest (all _ refl) new in
      rw e (
        unseen_lt seen (collect seen (a ∷ rest)) (λ b. mem-collect b seen (a ∷ rest)) a universe
          known fresh (mem-collect-head a seen rest))

  module _ (address : String) (universe : List String)
      (bounded : (n : ℕ) (before : Option String) (page : List SignatureInfo)
        → get_signatures n address before 50 ≡ some page
        → All (λ (sig : SignatureInfo). mem sig.signature universe ≡ true) page) where
    process_historical_from-total :
        (fuel : ℕ) (before : Option String) (seen : List String) (p : Poll F)
        → unseen seen universe < fuel
        → process_historical_from services drain clock now fuel address before seen p ≢ none
    unfolding process_historical_from
    process_historical_from-total zero before seen p h = absurd (omega arith)
    process_historical_from-total (suc fuel) before seen p h =
        let answer = get_signatures p.sent address before 50 in
        elim (Round-cases
          (round_of services drain clock now answer seen (record p { sent = suc p.sent }))) [
            | inl (c, p', e) ↦ ground (arith, e)
            | inr (c, b, seen', p', e) ↦
                let less = round_of-go_on universe answer seen _ (bounded p.sent before) e in
                let rest = process_historical_from-total fuel (some b) seen' p' (omega arith) in
                ground (arith, e, rest)
          ]

    -- If the signatures that the node lists for an address are among finitely many, the loop ends,
    -- whatever the pages: one round more than there are signatures is enough.
    pub process_historical_address-total :
        (fuel : ℕ) (p : Poll F)
        → length universe < fuel
        → process_historical_address services drain clock now fuel address p ≢ none
    unfolding process_historical_address
    process_historical_address-total fuel p h =
        process_historical_from-total fuel none [] p (omega (arith, unseen_le_length [] universe))
