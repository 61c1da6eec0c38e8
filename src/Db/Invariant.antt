-- ===== src/Db/Invariant.antt =====
-- The invariants of the two tables of src/db/mod.rs, under each statement and each function of
-- src/db.
use chain_data_service.Base.{
  ℕ, suc, ◌+◌, ◌≤◌, String, ◌≡◌, refl, true, false, Option, none, some, List, [], ◌∷◌, ◌++◌, ℤ,
  arith, ◌==◌, inl, inr, Option-cases, Bool-cases, ltb, ◌&&◌, if◌then◌else◌, str_eq, eq_iff, All,
  All-append,
}
use chain_data_service.Db.Tables.{
  Db, AddressRow, TransactionRow, is_text, count_address, upsert, delete_rows, involves,
  has_reference, has_signature, destination_ok, references_ok, delete_address, insert_transaction,
}

pub count_address-upsert :
    (a b : String) (now : ℤ) (rows : List AddressRow)
    → count_address b (upsert a now rows) ≡ (
        if str_eq a b
        then (if count_address b rows == 0 then 1 else count_address b rows)
        else count_address b rows)
unfolding count_address upsert
count_address-upsert a b now [] = ground arith
count_address-upsert a b now (r ∷ rows) = elim (Option-cases r.address) [
  | inl e ↦ ground (arith, e, count_address-upsert a b now rows)
  | inr (c, e) ↦
      ground (arith, e, count_address-upsert a b now rows, eq_iff c a, eq_iff c b, eq_iff a b)
]

pub count_address-delete_rows :
    (a b : String) (rows : List AddressRow)
    → count_address b (delete_rows a rows) ≡ (if str_eq a b then 0 else count_address b rows)
unfolding count_address delete_rows
count_address-delete_rows a b [] = ground arith
count_address-delete_rows a b (r ∷ rows) = elim (Option-cases r.address) [
  | inl e ↦ ground (arith, e, count_address-delete_rows a b rows)
  | inr (c, e) ↦
      ground (arith, e, count_address-delete_rows a b rows, eq_iff c a, eq_iff c b, eq_iff a b)
]

delete_rows_absent :
    (a : String) (rows : List AddressRow) → count_address a rows ≡ 0 → delete_rows a rows ≡ rows
unfolding count_address delete_rows
delete_rows_absent a [] h = refl
delete_rows_absent a (r ∷ rows) h = ground (arith, delete_rows_absent a rows)

destination_ok-upsert :
    (a : String) (now : ℤ) (rows : List AddressRow) (d : Option String)
    → destination_ok rows d ≡ true
    → destination_ok (upsert a now rows) d ≡ true
unfolding destination_ok
destination_ok-upsert a now rows none h = refl
destination_ok-upsert a now rows (some d) h = ground (arith, count_address-upsert a d now rows)

destination_ok-delete_rows :
    (a : String) (rows : List AddressRow) (d : Option String)
    → is_text a d ≡ false
    → destination_ok rows d ≡ true
    → destination_ok (delete_rows a rows) d ≡ true
unfolding destination_ok is_text
destination_ok-delete_rows a rows none k h = refl
destination_ok-delete_rows a rows (some d) k h =
    ground (arith, count_address-delete_rows a d rows, eq_iff a d, eq_iff d a)

-- How often a signature occurs.
unfoldable pub count_signature : {F : Type 0} → String → List (TransactionRow F) → ℕ
count_signature s [] = 0
count_signature s (r ∷ rs) =
    if str_eq r.signature s then suc (count_signature s rs) else count_signature s rs

module _ {F : Type 0} where
  -- The keys are unique, and each row refers to tracked addresses.
  pub record IsConsistent (db : Db F) : Type 0 where
    pub unique_addresses : (a : String) → count_address a db.tracked ≤ 1
    pub unique_signatures : (s : String) → count_signature s db.transactions ≤ 1
    pub references : All (λ r. references_ok db.tracked r ≡ true) db.transactions

  references_ok-upsert :
      (a : String) (now : ℤ) (rows : List AddressRow) (r : TransactionRow F)
      → references_ok rows r ≡ true
      → references_ok (upsert a now rows) r ≡ true
  unfolding references_ok
  references_ok-upsert a now rows r h = ground (
    arith,
    count_address-upsert a r.source_address now rows,
    destination_ok-upsert a now rows r.destination_address,
  )

  references_ok-delete_rows :
      (a : String) (rows : List AddressRow) (r : TransactionRow F)
      → involves a r ≡ false
      → references_ok rows r ≡ true
      → references_ok (delete_rows a rows) r ≡ true
  unfolding references_ok involves
  references_ok-delete_rows a rows r k h = ground (
    arith,
    count_address-delete_rows a r.source_address rows,
    eq_iff a r.source_address,
    eq_iff r.source_address a,
    destination_ok-delete_rows a rows r.destination_address,
  )

  All-references-upsert :
      (a : String) (now : ℤ) (rows : List AddressRow) (rs : List (TransactionRow F))
      → All (λ r. references_ok rows r ≡ true) rs
      → All (λ r. references_ok (upsert a now rows) r ≡ true) rs
  All-references-upsert a now rows [] h = tt
  All-references-upsert a now rows (r ∷ rs) (p, h) =
      (references_ok-upsert a now rows r p, All-references-upsert a now rows rs h)

  All-references-delete_rows :
      (a : String) (rows : List AddressRow) (rs : List (TransactionRow F))
      → has_reference a rs ≡ false
      → All (λ r. references_ok rows r ≡ true) rs
      → All (λ r. references_ok (delete_rows a rows) r ≡ true) rs
  unfolding has_reference
  All-references-delete_rows a rows [] k h = tt
  All-references-delete_rows a rows (r ∷ rs) k (p, h) = (
    references_ok-delete_rows a rows r (ground arith) p,
    All-references-delete_rows a rows rs (ground arith) h,
  )

  count_signature-append :
      (s : String) (rs : List (TransactionRow F)) (r : TransactionRow F)
      → count_signature s (rs ++ r ∷ [])
        ≡ count_signature s rs + (if str_eq r.signature s then 1 else 0)
  unfolding count_signature
  count_signature-append s [] r = ground arith
  count_signature-append s (x ∷ rs) r = ground (arith, count_signature-append s rs r)

  count_signature-fresh :
      (s : String) (rs : List (TransactionRow F))
      → has_signature s rs ≡ false
      → count_signature s rs ≡ 0
  unfolding count_signature has_signature
  count_signature-fresh s [] h = refl
  count_signature-fresh s (x ∷ rs) h = ground (arith, count_signature-fresh s rs)

  pub upsert-IsConsistent :
      (a : String) (now : ℤ) (db : Db F)
      → IsConsistent db
      → IsConsistent (record db { tracked = upsert a now db.tracked })
  upsert-IsConsistent a now db v = record {
    unique_addresses =
        λ b. ground (arith, count_address-upsert a b now db.tracked, v.unique_addresses b);
    unique_signatures = v.unique_signatures;
    references = All-references-upsert a now db.tracked db.transactions v.references;
  }

  after_delete :
      (a : String) (db : Db F)
      → IsConsistent db
      → (ltb 0 (count_address a db.tracked) && has_reference a db.transactions) ≡ false
      → All (λ r. references_ok (delete_rows a db.tracked) r ≡ true) db.transactions
  after_delete a db v h = elim (Bool-cases (has_reference a db.transactions)) [
    | inl held ↦ rw (delete_rows_absent a db.tracked (ground arith)) v.references
    | inr free ↦ All-references-delete_rows a db.tracked db.transactions free v.references
  ]

  pub delete_address-IsConsistent :
      (a : String) (db : Db F) → IsConsistent db → IsConsistent (delete_address a db).1
  unfolding delete_address
  delete_address-IsConsistent a db v =
      elim (Bool-cases (ltb 0 (count_address a db.tracked) && has_reference a db.transactions)) [
        | inl refused ↦ rw refused v
        | inr accepted ↦ rw accepted (record {
          unique_addresses =
              λ b. ground (arith, count_address-delete_rows a b db.tracked, v.unique_addresses b);
          unique_signatures = v.unique_signatures;
          references = after_delete a db v accepted;
        })
      ]

  pub insert_transaction-IsConsistent :
      (r : TransactionRow F) (db : Db F)
      → IsConsistent db
      → IsConsistent (insert_transaction r db).1
  unfolding insert_transaction
  insert_transaction-IsConsistent r db v =
      elim (Bool-cases (has_signature r.signature db.transactions)) [
        | inl known ↦ rw known v
        | inr fresh ↦ rw fresh (elim (Bool-cases (references_ok db.tracked r)) [
          | inl good ↦ rw good (record {
            unique_addresses = v.unique_addresses;
            unique_signatures = λ s. ground (
              arith,
              count_signature-append s db.transactions r,
              count_signature-fresh r.signature db.transactions,
              eq_iff r.signature s,
              v.unique_signatures s,
            );
            references = All-append _ db.transactions (r ∷ []) v.references (good, tt);
          })
          | inr bad ↦ rw bad v
        ])
      ]
