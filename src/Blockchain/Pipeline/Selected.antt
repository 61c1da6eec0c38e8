-- ===== src/Blockchain/Pipeline/Selected.antt =====
-- Which of the polled transactions the query of src/db/transaction.rs selects: with a node that
-- answers in the same way each time, each stored one that matches.
use mathlib.Core.List.{Mem, Memᴰ, mem-cons_of_mem}
use chain_data_service.Base.{
  ℕ, String, true, some, List, [], ◌∷◌, map, ◌≡◌, sym, ap, subst, ◌∙◌, ℤ, arith, str_eq, eq_iff,
  inl, inr, Bool-cases, Option-cases, All, filter_by,
}
use chain_data_service.Models.{Transaction}
use chain_data_service.Db.Tables.{
  AddressRow, TransactionRow, has_signature, matches, involves, is_text,
}
use chain_data_service.Blockchain.Processor.Registers.{IsTracked}
use chain_data_service.Blockchain.Processor.Delivers.{Involves, IsStored}
use chain_data_service.Db.Transaction.{to_row, of_row}
use chain_data_service.Db.RoundTrip.{of_row-to_row}
use chain_data_service.Blockchain.Services.{Services, fetch}
use chain_data_service.Blockchain.Services.Laws.{IsYielded}
use chain_data_service.Blockchain.Processor.Authentic.{IsAuthentic}
use chain_data_service.Blockchain.Pipeline.{signature_of, fetch-stable}

module _ {F : Type 0} (services : Services F)
    (stable : (n : ℕ) (signature : String)
      → services.get_transaction n signature ≡ services.get_transaction 0 signature) where
  -- One transaction for each signature.
  yielded_once :
      (t u : Transaction F)
      → IsYielded services t
      → IsYielded services u
      → u.signature ≡ t.signature
      → u ≡ t
  yielded_once t u (n, s, e) (k, s', e') same =
      let one : s' ≡ s =
        sym (signature_of services stable k s' u e')
        ∙ same
        ∙ signature_of services stable n s t e in
      let found : some u ≡ some t =
        sym e'
        ∙ fetch-stable services stable k s'
        ∙ ap (fetch services 0) one
        ∙ sym (fetch-stable services stable n s)
        ∙ e in
      cc

  module _ (a : String) (start_time end_time : ℤ) (t : Transaction F)
      (yielded : IsYielded services t)
      (shows : matches a start_time end_time (to_row t) ≡ true) where
    stored-selected :
        (rows : List (TransactionRow F))
        → All (IsAuthentic services) rows
        → has_signature t.signature rows ≡ true
        → Mem t (map of_row (filter_by (matches a start_time end_time) rows))
    unfolding has_signature filter_by to_row
    stored-selected [] all h = absurd (ground arith)
    stored-selected (r ∷ rows) ((u, y, row), all) h =
        elim (Bool-cases (str_eq r.signature t.signature)) [
          | inl hit ↦
              let same : u ≡ t = yielded_once t u yielded y (
                ap (λ (x : TransactionRow F). x.signature) (sym row)
                ∙ (eq_iff r.signature t.signature).0 hit) in
              let its_row : r ≡ to_row t = row ∙ ap to_row same in
              let shown : matches a start_time end_time r ≡ true =
                ap (matches a start_time end_time) its_row ∙ shows in
              rw shown (∣ Memᴰ.head (sym (ap of_row its_row ∙ of_row-to_row t)) ∣₁)
          | inr miss ↦
              let later = stored-selected rows all (ground (arith, miss, h)) in
              elim (Bool-cases (matches a start_time end_time r)) [
                | inl p ↦ rw p (mem-cons_of_mem (of_row r) later)
                | inr p ↦ rw p later
              ]
        ]

  matches-Involves :
      (a : String) (start_time end_time : ℤ) (tracked : List AddressRow) (t : Transaction F)
      → IsTracked tracked a
      → matches a start_time end_time (to_row t) ≡ true
      → Involves tracked t
  unfolding matches involves to_row is_text
  matches-Involves a start_time end_time tracked t h e =
      elim (Bool-cases (str_eq t.source_address a)) [
        | inl same ↦ inl (subst (IsTracked tracked) (sym ((eq_iff t.source_address a).0 same)) h)
        | inr other ↦ elim (Option-cases t.destination_address) [
          | inl f ↦ absurd (ground (arith, other, f, e))
          | inr (d, f) ↦ inr (
            d,
            f,
            subst (IsTracked tracked) (sym ((eq_iff d a).0 (ground (arith, other, f, e)))) h,
          )
        ]
      ]

  module _ (a : String) (start_time end_time : ℤ) (tracked : List AddressRow)
      (rows : List (TransactionRow F)) (tracks : IsTracked tracked a)
      (authentic : All (IsAuthentic services) rows) where
    pub on_page :
        (ts : List (Transaction F))
        → All (IsYielded services) ts
        → All (λ t. Involves tracked t → IsStored rows t) ts
        → All
            (λ t.
              matches a start_time end_time (to_row t) ≡ true
              → Mem t (map of_row (filter_by (matches a start_time end_time) rows)))
            ts
    on_page [] y h = tt
    on_page (t ∷ ts) (y, ys) (k, h) = (
      λ e.
          stored-selected a start_time end_time t y e rows authentic
            (k (matches-Involves a start_time end_time tracked t tracks e)),
      on_page ts ys h,
    )
