-- ===== src/Db/Query.antt =====
-- The pages of `get_transactions` of src/db/transaction.rs.
use mathlib.Core.List.{Mem, Perm, Pairwise}
use mathlib.Core.List.Perm
use mathlib.Core.Bool.{Bool-set}
use native.Mathlib.Nat.{zero-add, suc-add}
use chain_data_service.Base.{
  ℕ, zero, suc, ◌+◌, ◌≤◌, String, true, ◌≡◌, ◌↔◌, refl, sym, ap, List, [], ◌∷◌, ◌++◌, arith, ℤ, pos,
  ◌≤ℤ◌, All-perm, length-perm, length, All, take_rows, drop_rows, All-take_rows, All-drop_rows,
  All-filter_by, length-take_rows-le,
}
use chain_data_service.Db.Observed.{IsWithin, mem-select_rows}
use chain_data_service.Db.Tables.{Db, TransactionRow, matches, select_rows}
use chain_data_service.Db.Transaction.{RowOrder, limit_rows, offset_rows, select_page, count_rows}

module _ {ℓ} {A : Type ℓ} where
  take_rows-nil : (n : ℕ) → take_rows {A = A} n [] ≡ []
  unfolding take_rows
  take_rows-nil zero = refl
  take_rows-nil (suc n) = refl

  drop_rows-nil : (n : ℕ) → drop_rows {A = A} n [] ≡ []
  unfolding drop_rows
  drop_rows-nil zero = refl
  drop_rows-nil (suc n) = refl

  -- Two pages that follow one another make one.
  take_rows-append :
      (n k : ℕ) (xs : List A)
      → take_rows n xs ++ take_rows k (drop_rows n xs) ≡ take_rows (n + k) xs
  unfolding take_rows drop_rows
  take_rows-append zero k xs = rw zero-add
  take_rows-append (suc n) k [] = rw (take_rows-nil k, take_rows-nil (suc n + k))
  take_rows-append (suc n) k (x ∷ xs) = rw suc-add (ap (◌∷◌ x) (take_rows-append n k xs))

  drop_rows-add : (m n : ℕ) (xs : List A) → drop_rows n (drop_rows m xs) ≡ drop_rows (m + n) xs
  unfolding drop_rows
  drop_rows-add zero n xs = rw zero-add
  drop_rows-add (suc m) n [] = rw (drop_rows-nil n, drop_rows-nil (suc m + n))
  drop_rows-add (suc m) n (x ∷ xs) = rw suc-add (drop_rows-add m n xs)

  take_rows_all : (n : ℕ) (xs : List A) → length xs ≤ n → take_rows n xs ≡ xs
  unfolding take_rows
  take_rows_all zero [] h = refl
  take_rows_all zero (x ∷ xs) h = absurd (omega arith)
  take_rows_all (suc n) [] h = refl
  take_rows_all (suc n) (x ∷ xs) h = ap (◌∷◌ x) (take_rows_all n xs (omega arith))

module _ {F : Type 0} (order : RowOrder F) where
  open order use {order_by, order_by-perm, order_by-Pairwise}

  -- Every row of a page is a row of the address in the half-open time range, and there are at most
  -- `limit` of them.
  pub select_page_sound :
      (a : String) (start_time end_time : ℤ) (offset limit : ℕ) (db : Db F)
      → let page = select_page order a start_time end_time (pos offset) (pos limit) db in
        All (λ r. matches a start_time end_time r ≡ true) page × (length page ≤ limit)
  unfolding select_page limit_rows offset_rows select_rows
  select_page_sound a start_time end_time offset limit db = (
    All-take_rows _ limit _ (
        All-drop_rows _ offset _
          (All-perm _ (λ r. Bool-set _ _) (order_by-perm _) (All-filter_by _ db.transactions))),
    length-take_rows-le limit _,
  )

  -- A page and the page after it are the page of both.
  pub select_page-append :
      (a : String) (start_time end_time : ℤ) (offset n k : ℕ) (db : Db F)
      → select_page order a start_time end_time (pos offset) (pos n) db
          ++ select_page order a start_time end_time (pos (offset + n)) (pos k) db
        ≡ select_page order a start_time end_time (pos offset) (pos (n + k)) db
  unfolding select_page limit_rows offset_rows
  select_page-append a start_time end_time offset n k db =
      rw (← drop_rows-add) (take_rows-append n k _)

  -- A page from the start that is long enough for the reported count has the rows that the WHERE
  -- clause selects.
  pub select_page_complete :
      (a : String) (start_time end_time : ℤ) (limit : ℕ) (db : Db F)
      → count_rows a start_time end_time db ≤ℤ pos limit
      → Perm
          (select_page order a start_time end_time (pos 0) (pos limit) db)
          (select_rows a start_time end_time db)
  unfolding select_page limit_rows offset_rows count_rows
  select_page_complete a start_time end_time limit db h =
      let sorted = order_by-perm (select_rows a start_time end_time db) in
      let fits : length (order_by (select_rows a start_time end_time db)) ≤ limit =
        omega (arith, length-perm sorted) in
      rw (take_rows_all limit _ fits) sorted

  -- A page from the start, whose limit is not below the reported count, has exactly the rows of the
  -- table that have the address as their source or destination, at a time from the start of the range
  -- on and before its end; they are in the order of their times, and as many as the count.
  pub select_page-rows :
      (a : String) (start_time end_time : ℤ) (limit : ℕ) (db : Db F)
      → count_rows a start_time end_time db ≤ℤ pos limit
      → let page = select_page order a start_time end_time (pos 0) (pos limit) db in
        ((r : TransactionRow F)
          → Mem r page ↔ (Mem r db.transactions × IsWithin a start_time end_time r))
        × Pairwise (λ r s. r.block_time ≤ℤ s.block_time) page
        × (count_rows a start_time end_time db ≡ pos (length page))
  unfolding select_page limit_rows offset_rows count_rows
  select_page-rows a start_time end_time limit db h =
      let rows = select_page_complete a start_time end_time limit db h in
      let sorted = order_by-perm (select_rows a start_time end_time db) in
      let fits : length (order_by (select_rows a start_time end_time db)) ≤ limit =
        omega (arith, length-perm sorted) in
      (
        λ r.
            let (shown, shows) = Perm.mem_iff rows in
            let (told, tells) = mem-select_rows a start_time end_time db r in
            ((λ m. told (shown m)), (λ k. shows (tells k))),
        rw (take_rows_all limit _ fits) (order_by-Pairwise (select_rows a start_time end_time db)),
        ap pos (sym (length-perm rows)),
      )
