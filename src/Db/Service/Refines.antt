-- ===== src/Db/Service/Refines.antt =====
-- The functions of src/db keep what `Service` promises, for any sequence of calls.
use chain_data_service.Base.{
  ℕ, suc, String, Option, List, [], ◌∷◌, ◌≡◌, refl, ap, sym, ◌∙◌, inl, inr, Result, ok, err, ℤ,
  arith, not, ◌&&◌, ◌||◌, ltb, str_eq, Bool-cases, Result-cases,
}
use chain_data_service.Models.{Transaction}
use chain_data_service.Validation.{validate_solana_address, to_string}
use chain_data_service.Db.Tables.{
  SqlxError, protocol, foreign_key, Db, count_address, upsert, delete_rows, delete_address,
  has_reference,
}
use chain_data_service.Db.Exec.{World, IsCalm, pure, exec, bind-eq, bind-eq-err}
use chain_data_service.Db.Address.{add_address, remove_address, is_address_tracked}
use chain_data_service.Db.Invariant.{count_address-upsert, count_address-delete_rows}
use chain_data_service.Db.Service.{
  view, Command, track, untrack, ask, store_batch, Answer, done, was_tracked, perform, perform_all,
  promise, promise_all,
}
use chain_data_service.Db.Service.Store.{Service-ext, add_transactions-Stores}

module _ {F : Type 0} where
  view-upsert :
      (a : String) (now : ℤ) (db : Db F)
      → view (record db { tracked = upsert a now db.tracked })
        ≡ (let s = view db in record s { tracked = λ b. str_eq a b || s.tracked b })
  unfolding view
  view-upsert a now db =
      Service-ext _ _ (λ b. ground (arith, count_address-upsert a b now db.tracked)) (λ x. refl)
        (λ b. refl)

  view-delete_rows :
      (a : String) (db : Db F)
      → view (record db { tracked = delete_rows a db.tracked })
        ≡ (let s = view db in record s { tracked = λ b. not (str_eq a b) && s.tracked b })
  unfolding view
  view-delete_rows a db =
      Service-ext _ _ (λ b. ground (arith, count_address-delete_rows a b db.tracked)) (λ x. refl)
        (λ b. refl)

  module _ {S : Type 0} (decode : String → Option (List ℕ)) where
    -- A command is answered as promised, and leaves the tables that are promised.
    abbrev Fulfils : Command F → World F S → Type 0
    Fulfils c w =
        (db' : Db F) × (k : ℕ) × (r : Result Answer SqlxError) × (perform decode c w
          ≡ (r, record w { db = db'; issued = k }))
        × (promise decode c (view w.db) ≡ (r, view db'))

    track-Fulfils : (now : ℤ) (a : String) (w : World F S) → IsCalm w → Fulfils (track now a) w
    unfolding perform promise add_address exec
    track-Fulfils now a w calm = elim (Result-cases (validate_solana_address decode a)) [
      | inl (e, bad) ↦
          (w.db, w.issued, err (protocol (to_string e)), rw bad refl, rw (bad, promise) refl)
      | inr (u, good) ↦ (
        record w.db { tracked = upsert a now w.db.tracked },
        suc w.issued,
        ok done,
        rw (good, calm w.issued) refl,
        rw (good, promise) (ap (λ s. (ok done, s)) (sym (view-upsert a now w.db))),
      )
    ]

    ask-Fulfils : (a : String) (w : World F S) → IsCalm w → Fulfils (ask a) w
    unfolding perform promise is_address_tracked exec view
    ask-Fulfils a w calm = (
      w.db,
      suc w.issued,
      ok (was_tracked (ltb 0 (count_address a w.db.tracked))),
      rw (calm w.issued) refl,
      refl,
    )

    store_batch-Fulfils :
        (ts : List (Transaction F)) (w : World F S) → IsCalm w → Fulfils (store_batch ts) w
    unfolding perform promise pure
    store_batch-Fulfils ts w calm =
        let (db', k, cases) = add_transactions-Stores ts w calm in
        elim cases [
          | inl (failed, refused) ↦
              (w.db, k, err foreign_key, bind-eq-err _ _ w _ failed, rw (refused, promise) refl)
          | inr (run, accepted) ↦
              (db', k, ok done, bind-eq _ _ w _ run, rw (accepted, promise) refl)
        ]

    untrack-Fulfils : (a : String) (w : World F S) → IsCalm w → Fulfils (untrack a) w
    unfolding perform promise remove_address delete_address exec view
    untrack-Fulfils a w calm =
        elim (Bool-cases
          (ltb 0 (count_address a w.db.tracked) && has_reference a w.db.transactions)) [
            | inl kept ↦ (
              w.db,
              suc w.issued,
              err foreign_key,
              rw (calm w.issued) (rw kept refl),
              rw kept refl,
            )
            | inr gone ↦ (
              record w.db { tracked = delete_rows a w.db.tracked },
              suc w.issued,
              ok (was_tracked (ltb 0 (count_address a w.db.tracked))),
              rw (calm w.issued) (rw gone refl),
              rw gone (
                  ap (λ s. (ok (was_tracked (ltb 0 (count_address a w.db.tracked))), s))
                    (sym (view-delete_rows a w.db))),
            )
          ]

    perform-Fulfils : (c : Command F) (w : World F S) → IsCalm w → Fulfils c w
    perform-Fulfils (track now a) = track-Fulfils now a
    perform-Fulfils (untrack a) = untrack-Fulfils a
    perform-Fulfils (ask a) = ask-Fulfils a
    perform-Fulfils (store_batch ts) = store_batch-Fulfils ts

  -- When no statement fails, a sequence of calls of the database functions, each of which adds an
  -- address, removes one, asks for one or stores a batch, gives the answers that the abstract
  -- service gives, errors included, and leaves tables whose view is the state of the abstract
  -- service.
  pub perform_all-promise_all :
      {S : Type 0} (decode : String → Option (List ℕ)) (cs : List (Command F)) (w : World F S)
      → IsCalm w
      → ((perform_all decode cs w).0, view (perform_all decode cs w).1.db)
        ≡ promise_all decode cs (view w.db)
  unfolding perform_all promise_all
  perform_all-promise_all decode [] w calm = refl
  perform_all-promise_all decode (c ∷ cs) w calm =
      let (db', k, r, run, promised) = perform-Fulfils decode c w calm in
      let rest = perform_all-promise_all decode cs (record w { db = db'; issued = k }) calm in
      ap (λ p. let later = perform_all decode cs p.1 in (p.0 ∷ later.0, view later.1.db)) run
      ∙ ap (λ q. (r ∷ q.0, q.1)) rest
      ∙ ap (λ p. let later = promise_all decode cs p.1 in (p.0 ∷ later.0, later.1)) (sym promised)
