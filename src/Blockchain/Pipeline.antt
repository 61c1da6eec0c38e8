-- ===== src/Blockchain/Pipeline.antt =====
-- From the batches of a worker of src/blockchain/worker_pool.rs over the node to the tables: with a
-- node that answers in the same way each time, what is fetched again is what was sent.
pub mod Selected
pub mod Served
use mathlib.Core.Bool.{Bool-set}
use mathlib.Core.Path.{fun_ext}
use mathlib.Core.Logic.{∥∥₁_elim}
use mathlib.Core.List.{Perm}
use mathlib.Core.List.Perm
use chain_data_service.Base.{
  All-map, ℕ, suc, ◌+◌, length, ◌≡◌, refl, ap, sym, ◌∙◌, String, Option, some, List, [], ◌∷◌, ◌++◌,
  map, ok, ℤ, arith, append-nil, flatten, All, All-append, All-perm, inl, inr, Option-cases,
}
use chain_data_service.Models.{Transaction}
use chain_data_service.Db.Tables.{Db, AddressRow, TransactionRow}
use chain_data_service.Db.Exec.{World, IsCalm}
use chain_data_service.Blockchain.Batch.{
  DrainOrder, BatchManager, force_flush, flush, collect_transactions_for_flush,
}
use chain_data_service.Blockchain.Batch.Conserve.{held, IsOpen, held-flush}
use chain_data_service.Blockchain.Extract.Laws.{extract_transaction-some}
use chain_data_service.Blockchain.Services.{Services, fetch, fetch_all}
use chain_data_service.Blockchain.Processor.{SetOrder, run}
use chain_data_service.Blockchain.Processor.Registers.{Names, IsGood}
use chain_data_service.Blockchain.Processor.Delivers.{
  Involves, IsStored, fetched, AllFrom, Delivered,
}
use chain_data_service.Blockchain.Polling.{Poll}
use chain_data_service.Blockchain.Polling.Loop.{Tick, main_loop}
use chain_data_service.Blockchain.Polling.Gains.{main_loop-Gains}
use chain_data_service.Blockchain.Services.Laws.{IsYielded, fetch_all-IsYielded}

pub All-flatten :
    {A : Type 0} (P : A → Type 0) (xs : List (List A)) → All (All P) xs → All P (flatten xs)
unfolding flatten
All-flatten P [] h = tt
All-flatten P (x ∷ xs) (p, h) = All-append P x (flatten xs) p (All-flatten P xs h)

append-All : {A : Type 0} (P : A → Type 0) (xs ys : List A) → All P (xs ++ ys) → All P xs × All P ys
append-All P [] ys h = (tt, h)
append-All P (x ∷ xs) ys (p, h) = let (k, l) = append-All P xs ys h in ((p, k), l)

pub flatten-All :
    {A : Type 0} (P : A → Type 0) (xs : List (List A)) → All P (flatten xs) → All (All P) xs
unfolding flatten
flatten-All P [] h = tt
flatten-All P (x ∷ xs) h = let (k, l) = append-All P x (flatten xs) h in (k, flatten-All P xs l)

module _ {F : Type 0} (services : Services F)
    (stable : (n : ℕ) (signature : String)
      → services.get_transaction n signature ≡ services.get_transaction 0 signature) where
  pub fetch-stable :
      (n : ℕ) (signature : String) → fetch services n signature ≡ fetch services 0 signature
  unfolding fetch
  fetch-stable n signature = rw (stable n signature, fetch) refl

  -- The node yields a transaction for its signature.
  pub IsKnown : Transaction F → Type 0
  IsKnown t = ∥ (fetch services 0 t.signature ≡ some t) ∥₁

  pub signature_of :
      (n : ℕ) (s : String) (t : Transaction F) → fetch services n s ≡ some t → t.signature ≡ s
  unfolding fetch
  signature_of n s t e = elim (Option-cases (services.get_transaction n s)) [
    | inl f ↦ absurd (ground (arith, e, f))
    | inr (tx, f) ↦
        let extracted = rw (f, fetch) at e in
        (extract_transaction-some services.json services.to_sol services.parse_f64
          services.system_program_id services.token_program_id s tx t extracted).5
  ]

  pub IsYielded-IsKnown : (t : Transaction F) → IsYielded services t → IsKnown t
  unfolding IsKnown
  IsYielded-IsKnown t (n, s, e) =
      ∣ ap (fetch services 0) (signature_of n s t e) ∙ sym (fetch-stable n s) ∙ e ∣₁

  module _ (P : Transaction F → Type 0) (prop : (t : Transaction F) → IsProp (P t)) where
    fetched-All :
        (n : ℕ) (batch : List (Transaction F))
        → All IsKnown batch
        → All P (fetch_all services n (map (λ (t : Transaction F). t.signature) batch))
        → All P batch
    unfolding IsKnown fetch_all
    fetched-All n [] known h = tt
    fetched-All n (t ∷ ts) (k, known) h =
        let head =
          ∥∥₁_elim k (prop t) (λ f. (rw (fetch-stable n t.signature ∙ f, fetch_all) at h).0) in
        elim (Option-cases (fetch services n t.signature)) [
          | inl e ↦ (head, fetched-All (suc n) ts known (rw (e, fetch_all) at h))
          | inr (u, e) ↦ (head, fetched-All (suc n) ts known (rw (e, fetch_all) at h).1)
        ]

  module _ (decode : String → Option (List ℕ)) where
    -- A transaction that names an address which is tracked is stored.
    abbrev pub IsDelivered : List AddressRow → List (TransactionRow F) → Transaction F → Type 0
    IsDelivered tracked rows t = Involves tracked t → IsStored rows t

    IsDelivered-prop :
        (tracked : List AddressRow) (rows : List (TransactionRow F)) (t : Transaction F)
        → IsProp (IsDelivered tracked rows t)
    IsDelivered-prop tracked rows t f g = fun_ext (λ v. Bool-set _ _ (f v) (g v))

    pub Delivered-IsDelivered :
        (tracked : List AddressRow) (rows : List (TransactionRow F)) (asked : ℕ)
        (batches : List (List (Transaction F)))
        → All (All IsKnown) batches
        → AllFrom (Delivered services tracked rows) asked batches
        → All (All (IsDelivered tracked rows)) batches
    unfolding AllFrom
    Delivered-IsDelivered tracked rows asked [] known h = tt
    Delivered-IsDelivered tracked rows asked (b ∷ bs) (k, known) (d, h) = (
      fetched-All (IsDelivered tracked rows) (IsDelivered-prop tracked rows) asked b k d,
      Delivered-IsDelivered tracked rows (asked + length b) bs known h,
    )

    pub All-fetched :
        (asked : ℕ) (batches : List (List (Transaction F)))
        → ((t : Transaction F) → IsYielded services t → Names (IsGood decode) t)
        → AllFrom (λ n b. All (Names (IsGood decode)) (fetched services n b)) asked batches
    unfolding AllFrom
    All-fetched asked [] good = tt
    All-fetched asked (b ∷ bs) good = (
      All-map _ _ (fetched services asked b) good (fetch_all-IsYielded services asked _),
      All-fetched (asked + length b) bs good,
    )
