-- ===== src/Blockchain/Polling/Loop.antt =====
-- The main loop of `start_polling` in src/blockchain/polling.rs, from its first slot until the
-- shutdown.
use chain_data_service.Base.{
  ℕ, ◌+◌, ◌≤◌, ◌<◌, String, Option, none, some, List, [], ◌∷◌, ◌++◌, Result, ok, err, ◌≡◌, refl,
  sym, ap, subst, ◌∙◌, arith, leb, ltb, inl, inr, Bool-cases, All,
}
use chain_data_service.Db.Tables.{SqlxError}
use chain_data_service.Blockchain.Client.{ClientError}
use chain_data_service.Blockchain.Services.{Services}
use chain_data_service.Blockchain.Batch.{DrainOrder}
use chain_data_service.Blockchain.Processor.{SetOrder, collect}
use chain_data_service.Blockchain.Polling.{
  Poll, slot_ranges, poll_ranges, poll_new_transactions, addresses_of, poll_tick,
}
use chain_data_service.Blockchain.Polling.Slots.{count_ranges, slot_ranges-partition}

-- The first slot, or a default when the node does not tell.
unfoldable pub first_slot : Result ℕ ClientError → ℕ
first_slot (ok slot) = slot
first_slot (err e) = 100000

-- What a tick finds: the answer of the database and that of the node.
pub record Tick : Type 0 where
  pub addresses : Result (List String) SqlxError
  pub latest_slot : Option ℕ

module _ {F : Type 0} (services : Services F) (drain : DrainOrder F) (clock : ℕ → ℕ)
    (set : SetOrder) where
  unfoldable pub main_loop : List Tick → ℕ → Poll F → ℕ × Poll F
  unfolding poll_tick
  main_loop [] current_slot p = (current_slot, p)
  main_loop (t ∷ ts) current_slot p =
      let (next, p') =
        poll_tick services drain clock set t.addresses t.latest_slot current_slot p in
      main_loop ts next p'

abbrev AllSmall : List Tick → Type 0
AllSmall ts = All (λ t. (slot : ℕ) → t.latest_slot ≡ some slot → slot < 18446744073709551607) ts

count_ranges-append :
    (slot : ℕ) (rs qs : List (ℕ × ℕ))
    → count_ranges slot (rs ++ qs) ≡ count_ranges slot rs + count_ranges slot qs
unfolding count_ranges
count_ranges-append slot [] qs = omega arith
count_ranges-append slot ((first, last) ∷ rs) qs = ground (arith, count_ranges-append slot rs qs)

-- Ranges of slots, from one slot to another, that leave none of them out and have no other.
abbrev pub Covers : ℕ → ℕ → List (ℕ × ℕ) → Type 0
Covers first last rs =
    (first ≤ last)
    × ((slot : ℕ) → first < last → first ≤ slot → slot ≤ last → 1 ≤ count_ranges slot rs)
    × ((slot : ℕ) → slot < first → count_ranges slot rs ≡ 0)
    × ((slot : ℕ) → last < slot → count_ranges slot rs ≡ 0)

Covers-trans :
    (a b c : ℕ) (rs qs : List (ℕ × ℕ)) → Covers a b rs → Covers b c qs → Covers a c (rs ++ qs)
Covers-trans a b c rs qs (h, inside, below, above) (k, inside', below', above') = (
  omega arith,
  λ slot l m n. elim (Bool-cases (leb slot b)) [
    | inl e ↦ elim (Bool-cases (ltb a b)) [
      | inl f ↦ ground (arith, e, f, l, m, n, inside slot, count_ranges-append slot rs qs)
      | inr f ↦ ground (arith, e, f, l, m, n, inside' slot, count_ranges-append slot rs qs)
    ]
    | inr e ↦ ground (arith, e, l, m, n, inside' slot, count_ranges-append slot rs qs)
  ],
  λ slot l. ground (arith, l, h, below slot, below' slot, count_ranges-append slot rs qs),
  λ slot l. ground (arith, l, k, above slot, above' slot, count_ranges-append slot rs qs),
)

slot_ranges-Covers :
    (first last : ℕ)
    → first ≤ last
    → last < 18446744073709551607
    → Covers first last (slot_ranges first last)
slot_ranges-Covers first last h b = (
  h,
  λ slot l m n. ground (arith, l, m, n, slot_ranges-partition first last slot b),
  λ slot l. ground (arith, l, slot_ranges-partition first last slot b),
  λ slot l. ground (arith, l, slot_ranges-partition first last slot b),
)

Covers-nil : (slot : ℕ) → Covers slot slot []
unfolding count_ranges
Covers-nil slot = (omega arith, λ s l m n. omega arith, λ s l. refl, λ s l. refl)

module _ {F : Type 0} (services : Services F) (drain : DrainOrder F) (clock : ℕ → ℕ)
    (set : SetOrder) where
  poll_ranges-append :
      (addresses : List String) (rs qs : List (ℕ × ℕ)) (p : Poll F)
      → (poll_ranges services drain clock addresses (rs ++ qs) p).1
        ≡ (poll_ranges services drain clock addresses qs
            (poll_ranges services drain clock addresses rs p).1).1
  unfolding poll_ranges
  poll_ranges-append addresses [] qs p = refl
  poll_ranges-append addresses ((first, last) ∷ rs) qs p = poll_ranges-append addresses rs qs _

  module _ (a : String) (rest : List String) where
    abbrev polled : List (ℕ × ℕ) → Poll F → Poll F
    polled rs p = (poll_ranges services drain clock (set.iterate (collect [] (a ∷ rest))) rs p).1

    poll_new_transactions-polled :
        (s latest : ℕ) (p : Poll F)
        → (poll_new_transactions services drain clock set (ok (a ∷ rest)) s latest p).1
          ≡ polled (slot_ranges s latest) p
    unfolding poll_new_transactions addresses_of
    poll_new_transactions-polled s latest p = refl

    poll_tick-Covers :
        (addresses : Result (List String) SqlxError) (latest : Option ℕ) (current_slot : ℕ)
        (p : Poll F)
        → addresses ≡ ok (a ∷ rest)
        → ((slot : ℕ) → latest ≡ some slot → slot < 18446744073709551607)
        → (rs : List (ℕ × ℕ)) × (next : ℕ) × (poll_tick services drain clock set addresses latest
              current_slot p
            ≡ (next, polled rs p))
          × Covers current_slot next rs
    unfolding poll_tick poll_ranges
    poll_tick-Covers addresses none s p e h = ([], s, refl, Covers-nil s)
    poll_tick-Covers addresses (some latest) s p e h = elim (Bool-cases (leb latest s)) [
      | inl old ↦ ([], s, rw old refl, Covers-nil s)
      | inr new ↦ (
        slot_ranges s latest,
        latest,
        rw (new, e) (ap (λ q. (latest, q)) (poll_new_transactions-polled s latest p)),
        slot_ranges-Covers s latest (ground (arith, new)) (h latest refl),
      )
    ]

  -- While the tracked addresses stay the same, and the node answers with slots below the end of the
  -- integers, a run of the main loop does what one call of `poll_ranges` does on some ranges of
  -- slots: when the current slot has moved, each slot from the first to the current one is in a
  -- range, the current slot is never below the first, and no range has a slot outside.
  pub main_loop-Covers :
      (a : String) (rest : List String) (ts : List Tick) (current_slot : ℕ) (p : Poll F)
      → All (λ t. t.addresses ≡ ok (a ∷ rest)) ts
      → AllSmall ts
      → (rs : List (ℕ × ℕ)) × ((main_loop services drain clock set ts current_slot p).1
          ≡ (poll_ranges services drain clock (set.iterate (collect [] (a ∷ rest))) rs p).1)
        × Covers current_slot (main_loop services drain clock set ts current_slot p).0 rs
  unfolding main_loop poll_ranges
  main_loop-Covers a rest [] s p same small = ([], refl, Covers-nil s)
  main_loop-Covers a rest (t ∷ ts) s p (e, same) (h, small) =
      let (rs, next, tick, first) = poll_tick-Covers a rest t.addresses t.latest_slot s p e h in
      let (qs, later, last) = main_loop-Covers a rest ts next (polled a rest rs p) same small in
      let run = ap (λ r. main_loop services drain clock set ts r.0 r.1) tick in
      (
        rs ++ qs,
        ap (λ r. r.1) run
            ∙ later
            ∙ sym (poll_ranges-append (set.iterate (collect [] (a ∷ rest))) rs qs p),
        subst (λ n. Covers s n (rs ++ qs)) (ap (λ r. r.0) (sym run))
            (Covers-trans s next _ rs qs first last),
      )
