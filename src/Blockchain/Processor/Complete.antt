-- ===== src/Blockchain/Processor/Complete.antt =====
-- What `process_transaction_batch` of src/blockchain/processor.rs stores when nothing fails.
use mathlib.Core.Bool.{Bool-set}
use mathlib.Core.List.Perm
use chain_data_service.Base.{
  ℕ, ◌+◌, String, true, Option, none, some, List, [], ◌∷◌, ◌++◌, ◌≡◌, refl, ap, sym, ◌∙◌, ok, ℤ,
  arith, All, All-perm, length, filter_by, filter_by-append, flatten,
}
use chain_data_service.Models.{Transaction}
use chain_data_service.Db.Tables.{AddressRow, references_ok, destination_ok}
use chain_data_service.Db.Exec.{Exec, World, IsCalm, bind-eq, pure}
use chain_data_service.Db.Transaction.{to_row}
use chain_data_service.Db.Atomic.{stored, add_transactions_complete}
use chain_data_service.Blockchain.Services.{Services, fetch_all, chunks}
use chain_data_service.Blockchain.Services.Laws.{fetch_all-append, flatten-chunks}
use chain_data_service.Blockchain.Processor.{
  SetOrder, attempt, addresses_to_register, processed_of, store, is_transaction_relevant,
  fetch_relevant, process_transaction_batch,
}
use chain_data_service.Blockchain.Processor.Registers.{
  Names, OnSome, IsTracked, IsGood, All-addresses_to_register, addresses_to_register-All,
  register_all-total,
}

references_ok-tracked :
    {F : Type 0} (rows : List AddressRow) (t : Transaction F)
    → Names (IsTracked rows) t
    → references_ok rows (to_row t) ≡ true
unfolding references_ok to_row Names destination_ok OnSome
references_ok-tracked rows t (p, q) = ground (arith, p, destination t.destination_address q)
  where
    destination : (d : Option String) → OnSome (IsTracked rows) d → destination_ok rows d ≡ true
    destination none h = refl
    destination (some d) h = h

All-references_ok :
    {F : Type 0} (rows : List AddressRow) (ts : List (Transaction F))
    → All (Names (IsTracked rows)) ts
    → All (λ t. references_ok rows (to_row t) ≡ true) ts
All-references_ok rows [] h = tt
All-references_ok rows (t ∷ ts) (p, h) =
    (references_ok-tracked rows t p, All-references_ok rows ts h)

fetch_relevant-flatten :
    {F : Type 0} (services : Services F) (tracked : List String) (n : ℕ) (cs : List (List String))
    → fetch_relevant services tracked n cs
      ≡ filter_by (is_transaction_relevant tracked) (fetch_all services n (flatten cs))
unfolding fetch_relevant flatten fetch_all filter_by
fetch_relevant-flatten services tracked n [] = refl
fetch_relevant-flatten services tracked n (c ∷ cs) =
    let relevant = filter_by (is_transaction_relevant tracked) in
    ap (◌++◌ (relevant (fetch_all services n c)))
      (fetch_relevant-flatten services tracked (n + length c) cs)
    ∙ sym (filter_by-append (is_transaction_relevant tracked) (fetch_all services n c) _)
    ∙ ap relevant (sym (fetch_all-append services n c (flatten cs)))

module _ {F S : Type 0} (decode : String → Option (List ℕ)) (clock : ℕ → ℤ) (set : SetOrder) where
  open set use {iterate-perm}

  attempt-eq :
      {A : Type 0} (m : Exec F S A) (w w' : World F S) {a : A}
      → m w ≡ (ok a, w')
      → attempt m w ≡ (ok (ok a), w')
  unfolding attempt
  attempt-eq m w w' e = ap (λ r. (ok r.0, r.1)) e

  store-total :
      (n : ℕ) (ts : List (Transaction F)) (w : World F S)
      → IsCalm w
      → All (Names (IsGood decode)) ts
      → (rows : List AddressRow) × (k : ℕ) × (store decode clock set n ts w ≡ (
        ok (length ts),
        record w {
          db = record { tracked = rows; transactions = stored ts w.db.transactions };
          issued = k;
        },
      ))
        × All (Names (IsTracked rows)) ts
        × ((b : String) → IsTracked w.db.tracked b → IsTracked rows b)
  unfolding store pure stored processed_of
  store-total n [] w calm good = (w.db.tracked, w.issued, refl, tt, λ b h. h)
  store-total n (t ∷ ts) w calm good =
      let named = addresses_to_register [] (t ∷ ts) in
      let good_names =
        All-perm (IsGood decode) (λ a. Bool-set _ _) (iterate-perm named)
          (All-addresses_to_register (IsGood decode) (t ∷ ts) [] good tt) in
      let (rows, k, e, all, kept) =
        register_all-total decode clock (set.iterate named) n w calm good_names in
      let all_named =
        (addresses_to_register-All (IsTracked rows) (t ∷ ts) []
          (All-perm (IsTracked rows) (λ a. Bool-set _ _) (Perm.symm (iterate-perm named)) all)).0 in
      let w1 : World F S = record w { db = record w.db { tracked = rows }; issued = k } in
      let (k', e') =
        add_transactions_complete (t ∷ ts) w1 calm (All-references_ok rows (t ∷ ts) all_named) in
      (rows, k', bind-eq _ _ w w1 e ∙ bind-eq _ _ w1 _ (attempt-eq _ w1 _ e'), all_named, kept)

  pub process_transaction_batch-keeps :
      (services : Services F) (asked : ℕ) (signatures tracked : List String) (w : World F S)
      → IsCalm w
      → let ts =
          filter_by (is_transaction_relevant tracked) (fetch_all services asked signatures) in
        All (Names (IsGood decode)) ts
        → (rows : List AddressRow) × (k : ℕ) × (process_transaction_batch decode clock services set
              asked signatures tracked w
            ≡ (
              ok (length ts),
              record w {
                db = record { tracked = rows; transactions = stored ts w.db.transactions };
                issued = k;
              },
            ))
          × All (Names (IsTracked rows)) ts
          × ((b : String) → IsTracked w.db.tracked b → IsTracked rows b)
  unfolding process_transaction_batch
  process_transaction_batch-keeps services asked signatures tracked w calm good =
      let same =
        fetch_relevant-flatten services tracked asked (chunks 10 signatures)
        ∙ ap (λ s. filter_by (is_transaction_relevant tracked) (fetch_all services asked s))
            (flatten-chunks 9 signatures) in
      rw same (store-total _ _ w calm good)

  -- When no statement fails and every address that the relevant transactions name is valid, the
  -- relevant ones among the transactions that the node yields for the signatures are all stored, in
  -- order and without those whose signature was there, every address that they name is tracked, and
  -- their number is returned.
  pub process_transaction_batch-total :
      (services : Services F) (asked : ℕ) (signatures tracked : List String) (w : World F S)
      → IsCalm w
      → let ts =
          filter_by (is_transaction_relevant tracked) (fetch_all services asked signatures) in
        All (Names (IsGood decode)) ts
        → (rows : List AddressRow) × (k : ℕ) × (process_transaction_batch decode clock services set
              asked signatures tracked w
            ≡ (
              ok (length ts),
              record w {
                db = record { tracked = rows; transactions = stored ts w.db.transactions };
                issued = k;
              },
            ))
          × All (Names (IsTracked rows)) ts
  process_transaction_batch-total services asked signatures tracked w calm good =
      let (rows, k, e, all, kept) =
        process_transaction_batch-keeps services asked signatures tracked w calm good in
      (rows, k, e, all)
