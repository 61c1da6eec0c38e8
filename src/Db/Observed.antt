-- ===== src/Db/Observed.antt =====
-- What the queries of src/db say of the tables, told without them: when a row names an address, and
-- when an address was added.
use mathlib.Core.Bool.{Bool-set}
use mathlib.Core.List.{Mem, Memᴰ, Mem-prop, not-mem-nil, mem-cons_of_mem, eq-or-mem_of_mem-cons}
use mathlib.Core.Logic.Or
use chain_data_service.Base.{
  ◌≤◌, String, Bool, true, false, some, List, [], ◌∷◌, ◌≡◌, ◌≢◌, ◌↔◌, ◌⊎◌, refl, ap, ◌∙◌, inl, inr,
  ℤ, ◌≤ℤ◌, ◌<ℤ◌, arith, str_eq, eq_iff, Bool-cases, Option-cases, filter_by, All, length,
  if◌then◌else◌,
}
use chain_data_service.Db.Tables.{
  Db, AddressRow, TransactionRow, is_text, count_address, upsert, delete_rows, involves,
  has_reference, matches, select_rows,
}

-- The times at which an address was added, row by row.
unfoldable pub times_of : String → List AddressRow → List ℤ
unfolding is_text
times_of a [] = []
times_of a (r ∷ rs) = if is_text a r.address then r.added_at ∷ times_of a rs else times_of a rs

count_address-length :
    (a : String) (rows : List AddressRow) → count_address a rows ≡ length (times_of a rows)
unfolding count_address times_of
count_address-length a [] = refl
count_address-length a (r ∷ rows) = ground (arith, count_address-length a rows)

times_of_absent :
    (a : String) (rows : List AddressRow) → count_address a rows ≡ 0 → times_of a rows ≡ []
unfolding count_address times_of
times_of_absent a [] h = refl
times_of_absent a (r ∷ rows) h = ground (arith, times_of_absent a rows)

-- After an upsert, a key that is unique was added now.
pub times_of-upsert :
    (a : String) (now : ℤ) (rows : List AddressRow)
    → count_address a rows ≤ 1
    → times_of a (upsert a now rows) ≡ now ∷ []
unfolding count_address upsert times_of
times_of-upsert a now [] h = ground (arith, eq_iff a a)
times_of-upsert a now (r ∷ rows) h = elim (Bool-cases (is_text a r.address)) [
  | inl e ↦ rw (e, times_of) (ground (arith, e, times_of_absent a rows))
  | inr e ↦ ground (arith, e, times_of-upsert a now rows)
]

pub times_of-upsert_other :
    (a b : String) (now : ℤ) (rows : List AddressRow)
    → b ≢ a
    → times_of b (upsert a now rows) ≡ times_of b rows
unfolding is_text upsert times_of
times_of-upsert_other a b now [] other = ground (arith, eq_iff a b)
times_of-upsert_other a b now (r ∷ rows) other = elim (Option-cases r.address) [
  | inl e ↦ ground (arith, e, times_of-upsert_other a b now rows other)
  | inr (c, e) ↦ ground (arith, e, times_of-upsert_other a b now rows other, eq_iff c a, eq_iff c b)
]

pub times_of-delete_rows :
    (a : String) (rows : List AddressRow) → times_of a (delete_rows a rows) ≡ []
unfolding delete_rows times_of
times_of-delete_rows a [] = refl
times_of-delete_rows a (r ∷ rows) = ground (arith, times_of-delete_rows a rows)

pub times_of-delete_rows_other :
    (a b : String) (rows : List AddressRow)
    → b ≢ a
    → times_of b (delete_rows a rows) ≡ times_of b rows
unfolding is_text delete_rows times_of
times_of-delete_rows_other a b [] other = refl
times_of-delete_rows_other a b (r ∷ rows) other = elim (Option-cases r.address) [
  | inl e ↦ ground (arith, e, times_of-delete_rows_other a b rows other)
  | inr (c, e) ↦
      ground (arith, e, times_of-delete_rows_other a b rows other, eq_iff c a, eq_iff c b)
]

pub count_address_iff :
    (a : String) (rows : List AddressRow) → (count_address a rows ≡ 0) ↔ (times_of a rows ≡ [])
count_address_iff a rows = (times_of_absent a rows, λ e. count_address-length a rows ∙ ap length e)

mem-filter_by :
    {A : Type 0} (p : A → Bool) (x : A) (xs : List A)
    → Mem x (filter_by p xs) ↔ (Mem x xs × (p x ≡ true))
unfolding filter_by
mem-filter_by p x [] = (λ m. absurd (not-mem-nil m), λ (m, e). m)
mem-filter_by p x (y ∷ ys) =
    let (to, from) = mem-filter_by p x ys in
    elim (Bool-cases (p y)) [
      | inl e ↦ rw e (
        λ m. (
          Or.elim Mem-prop (eq-or-mem_of_mem-cons m) (λ same. ∣ Memᴰ.head same ∣₁)
              (λ k. mem-cons_of_mem y (to k).0),
          Or.elim (Bool-set _ _) (eq-or-mem_of_mem-cons m) (λ same. ap p same ∙ e) (λ k. (to k).1),
        ),
        λ (m, shown).
            Or.elim Mem-prop (eq-or-mem_of_mem-cons m) (λ same. ∣ Memᴰ.head same ∣₁)
              (λ k. mem-cons_of_mem y (from (k, shown))),
      )
      | inr e ↦ rw e (
        λ m. let (k, shown) = to m in (mem-cons_of_mem y k, shown),
        λ (m, shown).
            Or.elim Mem-prop (eq-or-mem_of_mem-cons m)
              (λ same. absurd (let hidden = ap p same ∙ e in ground (arith, hidden, shown)))
              (λ k. from (k, shown)),
      )
    ]

module _ {F : Type 0} where
  -- The row has the address as its source or as its destination.
  abbrev pub IsOf : String → TransactionRow F → Type 0
  IsOf a r = (r.source_address ≡ a) ⊎ (r.destination_address ≡ some a)

  -- It does, at a time from the start on and before the end.
  abbrev pub IsWithin : String → ℤ → ℤ → TransactionRow F → Type 0
  IsWithin a start_time end_time r =
      IsOf a r × (start_time ≤ℤ r.block_time) × (r.block_time <ℤ end_time)

  pub involves-IsOf : (a : String) (r : TransactionRow F) → involves a r ≡ true → IsOf a r
  unfolding involves is_text
  involves-IsOf a r h = elim (Bool-cases (str_eq r.source_address a)) [
    | inl e ↦ inl ((eq_iff r.source_address a).0 e)
    | inr e ↦ elim (Option-cases r.destination_address) [
      | inl f ↦ absurd (ground (arith, e, f, h))
      | inr (d, f) ↦ inr (f ∙ ap some ((eq_iff d a).0 (ground (arith, e, f, h))))
    ]
  ]

  pub IsOf-involves : (a : String) (r : TransactionRow F) → IsOf a r → involves a r ≡ true
  unfolding involves is_text
  IsOf-involves a r (inl e) = ground (arith, eq_iff r.source_address a, e)
  IsOf-involves a r (inr e) = ground (arith, eq_iff a a, e)

  matches_iff :
      (a : String) (start_time end_time : ℤ) (r : TransactionRow F)
      → (matches a start_time end_time r ≡ true) ↔ IsWithin a start_time end_time r
  unfolding matches
  matches_iff a start_time end_time r = (
    λ h. (involves-IsOf a r (ground (arith, h)), ground (arith, h), ground (arith, h)),
    λ (of, from, to). ground (arith, IsOf-involves a r of, from, to),
  )

  pub matches-IsWithin :
      (a : String) (start_time end_time : ℤ) (r : TransactionRow F)
      → matches a start_time end_time r ≡ true
      → IsWithin a start_time end_time r
  matches-IsWithin a start_time end_time r = (matches_iff a start_time end_time r).0

  pub IsWithin-matches :
      (a : String) (start_time end_time : ℤ) (r : TransactionRow F)
      → IsWithin a start_time end_time r
      → matches a start_time end_time r ≡ true
  IsWithin-matches a start_time end_time r = (matches_iff a start_time end_time r).1

  -- The rows that the query selects are those that name the address in the time range.
  pub mem-select_rows :
      (a : String) (start_time end_time : ℤ) (db : Db F) (r : TransactionRow F)
      → Mem r (select_rows a start_time end_time db)
        ↔ (Mem r db.transactions × IsWithin a start_time end_time r)
  unfolding select_rows
  mem-select_rows a start_time end_time db r =
      let (to, from) = mem-filter_by (matches a start_time end_time) r db.transactions in
      let (told, tells) = matches_iff a start_time end_time r in
      ((λ m. let (k, e) = to m in (k, told e)), (λ (m, h). from (m, tells h)))

  pub mem-has_reference :
      (a : String) (r : TransactionRow F) (rows : List (TransactionRow F))
      → Mem r rows
      → IsOf a r
      → has_reference a rows ≡ true
  unfolding has_reference
  mem-has_reference a r [] m of = absurd (not-mem-nil m)
  mem-has_reference a r (x ∷ rows) m of =
      Or.elim (Bool-set _ _) (eq-or-mem_of_mem-cons m)
        (λ same. let named = ap (involves a) same in ground (arith, named, IsOf-involves a r of))
        (λ k. ground (arith, mem-has_reference a r rows k of))

  pub All-free :
      (a : String) (rows : List (TransactionRow F))
      → All (λ r. ¬ IsOf a r) rows
      → has_reference a rows ≡ false
  unfolding has_reference
  All-free a [] h = refl
  All-free a (r ∷ rows) (p, h) = elim (Bool-cases (involves a r)) [
    | inl e ↦ absurd (p (involves-IsOf a r e))
    | inr e ↦ ground (arith, e, All-free a rows h)
  ]
