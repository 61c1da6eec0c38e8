-- ===== src/Blockchain/Processor/Registers.antt =====
-- The addresses that `process_transaction_batch` of src/blockchain/processor.rs registers are those
-- that its transactions name, and registering them tracks them.
use chain_data_service.Base.{
  ℕ, suc, String, Bool, true, false, Option, none, some, List, [], ◌∷◌, ◌++◌, ◌≡◌, refl, subst, ◌∙◌,
  Result, ok, err, ℤ, arith, All, mem, str_eq, eq_iff, inl, inr, Bool-cases, ltb,
}
use chain_data_service.Models.{Transaction}
use chain_data_service.Validation.{ValidationError, validate_solana_address}
use chain_data_service.Db.Tables.{AddressRow, count_address, upsert}
use chain_data_service.Db.Exec.{World, IsCalm, exec, bind-eq, pure}
use chain_data_service.Db.Address.{add_address}
use chain_data_service.Db.Invariant.{count_address-upsert}
use chain_data_service.Blockchain.Processor.{
  insert, insert_destination, insert_addresses, addresses_to_register, attempt, register_all,
}

module _ (Q : String → Type 0) where
  All-mem : (a : String) (s : List String) → All Q s → mem a s ≡ true → Q a
  unfolding mem
  All-mem a [] h e = absurd (ground arith)
  All-mem a (x ∷ s) (p, h) e = elim (Bool-cases (str_eq x a)) [
    | inl same ↦ subst Q ((eq_iff x a).0 same) p
    | inr other ↦ All-mem a s h (ground (arith, other))
  ]

  All-snoc : (a : String) (s : List String) → Q a → All Q s → All Q (s ++ a ∷ [])
  All-snoc a [] p h = (p, tt)
  All-snoc a (x ∷ s) p (q, h) = (q, All-snoc a s p h)

  snoc-All : (a : String) (s : List String) → All Q (s ++ a ∷ []) → Q a × All Q s
  snoc-All a [] (p, h) = (p, tt)
  snoc-All a (x ∷ s) (q, h) = let (p, rest) = snoc-All a s h in (p, (q, rest))

  All-insert : (a : String) (s : List String) → Q a → All Q s → All Q (insert a s)
  unfolding insert
  All-insert a s p h = elim (Bool-cases (mem a s)) [
    | inl e ↦ rw e h
    | inr e ↦ rw e (All-snoc a s p h)
  ]

  insert-All : (a : String) (s : List String) → All Q (insert a s) → Q a × All Q s
  unfolding insert
  insert-All a s = elim (Bool-cases (mem a s)) [
    | inl e ↦ rw e (λ h. (All-mem a s h e, h))
    | inr e ↦ rw e (snoc-All a s)
  ]

  unfoldable pub OnSome : Option String → Type 0
  OnSome none = Unit
  OnSome (some d) = Q d

  -- The addresses that a transaction names satisfy a predicate.
  unfoldable pub Names : {F : Type 0} → Transaction F → Type 0
  unfolding OnSome
  Names t = Q t.source_address × OnSome t.destination_address

  All-insert_destination :
      (d : Option String) (s : List String) → OnSome d → All Q s → All Q (insert_destination d s)
  unfolding insert_destination OnSome
  All-insert_destination none s p h = h
  All-insert_destination (some d) s p h = All-insert d s p h

  insert_destination-All :
      (d : Option String) (s : List String) → All Q (insert_destination d s) → OnSome d × All Q s
  unfolding insert_destination OnSome
  insert_destination-All none s h = (tt, h)
  insert_destination-All (some d) s h = insert-All d s h

  module _ {F : Type 0} where
    pub All-addresses_to_register :
        (ts : List (Transaction F)) (s : List String)
        → All Names ts
        → All Q s
        → All Q (addresses_to_register s ts)
    unfolding addresses_to_register insert_addresses Names
    All-addresses_to_register [] s n h = h
    All-addresses_to_register (t ∷ ts) s ((p, q), n) h =
        All-addresses_to_register ts _ n
          (All-insert_destination t.destination_address _ q (All-insert t.source_address s p h))

    pub addresses_to_register-All :
        (ts : List (Transaction F)) (s : List String)
        → All Q (addresses_to_register s ts)
        → All Names ts × All Q s
    unfolding addresses_to_register insert_addresses Names
    addresses_to_register-All [] s h = (tt, h)
    addresses_to_register-All (t ∷ ts) s h =
        let (n, rest) = addresses_to_register-All ts _ h in
        let (q, rest') = insert_destination-All t.destination_address _ rest in
        let (p, k) = insert-All t.source_address s rest' in (((p, q), n), k)

-- The check of `add_address` succeeds.
unfoldable pub passes : Result (Unit {0}) ValidationError → Bool
passes (ok u) = true
passes (err e) = false

abbrev pub IsTracked : List AddressRow → String → Type 0
IsTracked rows a = ltb 0 (count_address a rows) ≡ true

upsert-IsTracked :
    (a b : String) (now : ℤ) (rows : List AddressRow)
    → IsTracked rows b
    → IsTracked (upsert a now rows) b
upsert-IsTracked a b now rows h = ground (arith, count_address-upsert a b now rows)

upsert-IsTracked_self :
    (a : String) (now : ℤ) (rows : List AddressRow) → IsTracked (upsert a now rows) a
upsert-IsTracked_self a now rows = ground (arith, count_address-upsert a a now rows, eq_iff a a)

abbrev pub IsGood : (String → Option (List ℕ)) → String → Type 0
IsGood decode a = passes (validate_solana_address decode a) ≡ true

module _ {F S : Type 0} (decode : String → Option (List ℕ)) where
  add_address-eq :
      (now : ℤ) (a : String) (w : World F S)
      → IsCalm w
      → IsGood decode a
      → attempt (add_address decode now a) w ≡ (
        ok (ok tt),
        record w {
          db = record w.db { tracked = upsert a now w.db.tracked };
          issued = suc w.issued;
        },
      )
  unfolding attempt add_address exec passes
  add_address-eq now a w calm good = ground (arith, calm w.issued)

  -- When no statement fails and every address is valid, all of them are tracked afterwards, and so
  -- is what was tracked before.
  pub register_all-total :
      (clock : ℕ → ℤ) (addresses : List String) (n : ℕ) (w : World F S)
      → IsCalm w
      → All (IsGood decode) addresses
      → (rows : List AddressRow) × (k : ℕ) × (register_all decode clock n addresses w
          ≡ (ok tt, record w { db = record w.db { tracked = rows }; issued = k }))
        × All (IsTracked rows) addresses
        × ((b : String) → IsTracked w.db.tracked b → IsTracked rows b)
  unfolding register_all pure
  register_all-total clock [] n w calm good = (w.db.tracked, w.issued, refl, tt, λ b h. h)
  register_all-total clock (a ∷ rest) n w calm (p, good) =
      let tracked = upsert a (clock n) w.db.tracked in
      let w1 : World F S = record w {
        db = record w.db { tracked = tracked };
        issued = suc w.issued;
      } in
      let (rows, k, e, all, kept) = register_all-total clock rest (suc n) w1 calm good in
      (
        rows,
        k,
        bind-eq _ _ w w1 (add_address-eq (clock n) a w calm p) ∙ e,
        (kept a (upsert-IsTracked_self a (clock n) w.db.tracked), all),
        λ b h. kept b (upsert-IsTracked a b (clock n) w.db.tracked h),
      )
