-- ===== src/Api/Track.antt =====
-- What `track_address` of src/api/route.rs does to the tracked addresses.
use mathlib.Core.List.{Mem}
use chain_data_service.Base.{
  ℕ, suc, ◌≤◌, String, true, false, Option, List, [], ◌∷◌, ok, err, ◌≡◌, ◌≢◌, refl, ap,
  if◌then◌else◌, ℤ, ltb, inl, inr, Bool-cases, All, arith,
}
use chain_data_service.Validation.{validate_solana_address}
use chain_data_service.Db.Tables.{
  TransactionRow, foreign_key, delete_rows, count_address, delete_address,
}
use chain_data_service.Db.Exec.{World, IsCalm, exec}
use chain_data_service.Db.Address.{add_address, remove_address}
use chain_data_service.Db.Observed.{
  times_of, times_of-upsert, times_of-upsert_other, times_of-delete_rows,
  times_of-delete_rows_other, count_address_iff, IsOf, All-free, mem-has_reference,
}
use chain_data_service.Api.Error.{database}
use chain_data_service.Api.Response.{plain, respond}
use chain_data_service.Api.Handler.{handler}
use chain_data_service.Api.Route.{
  TrackQuery, is_action, check_address, add_tracking, remove_tracking, track_address,
}

module _ {F S : Type 0} (a : String) (w : World F S) where
  open w use {db, issued, db.{tracked}}

  -- The address was added at the given times, every other address as before, and nothing else of
  -- the world is changed but the one statement that was sent.
  abbrev pub IsRetimed : List ℤ → World F S → Type 0
  IsRetimed times u =
      (times_of a u.db.tracked ≡ times)
      × ((b : String) → b ≢ a → times_of b u.db.tracked ≡ times_of b tracked)
      × (u ≡ record w { db = record db { tracked = u.db.tracked }; issued = suc issued })

module _ {F S : Type 0} (decode : String → Option (List ℕ)) (unicode_lower : ℕ → List ℕ) (now : ℤ)
    (params : TrackQuery) (w : World F S)
    (valid : validate_solana_address decode params.address ≡ ok tt) (calm : IsCalm w) where
  open w use {db, issued, db.{tracked, transactions}}

  -- When the address is valid and its key unique, the action in lower case is "add" and no statement
  -- fails, the answer is 201, and the address was added now, once, whether it was tracked or not;
  -- every other address was added when it was, and the world changes in nothing else but the one
  -- statement that was sent.
  pub track_address-add :
      count_address params.address tracked ≤ 1
      → is_action unicode_lower params.action "add" ≡ true
      → ((track_address decode unicode_lower now params w).0
          ≡ ok (respond 201 (plain "Address added to tracking")))
        × IsRetimed params.address w (now ∷ []) (track_address decode unicode_lower now params w).1
  unfolding track_address check_address add_tracking handler add_address exec
  track_address-add unique a =
      rw (valid, a, calm w.issued)
        (
          refl,
          (
            times_of-upsert params.address now tracked unique,
            (λ b. times_of-upsert_other params.address b now tracked),
            refl,
          ),
        )

  -- When the address is valid, the action in lower case is "remove" and no statement fails: an
  -- address that is not tracked is answered with 200 and the text of that, and no address changes; a
  -- tracked one that a stored transaction has as its source or destination is answered with the
  -- database error of the foreign keys, and the tables stay; a tracked one that no stored transaction
  -- has is answered with 200, it was then added at no time, every other address was added when it was,
  -- and the world changes in nothing else but the one statement.
  pub track_address-remove :
      is_action unicode_lower params.action "add" ≡ false
      → is_action unicode_lower params.action "remove" ≡ true
      → let (answer, u) = track_address decode unicode_lower now params w in
        (times_of params.address tracked ≡ []
          → (answer ≡ ok (respond 200 (plain "Address was not being tracked")))
            × IsRetimed params.address w [] u)
        × ((r : TransactionRow F)
            → times_of params.address tracked ≢ []
            → Mem r transactions
            → IsOf params.address r
            → (answer ≡ err (database foreign_key)) × (u ≡ record w { issued = suc issued }))
        × (times_of params.address tracked ≢ []
            → All (λ r. ¬ IsOf params.address r) transactions
            → (answer ≡ ok (respond 200 (plain "Address removed from tracking")))
              × IsRetimed params.address w [] u)
  unfolding track_address check_address remove_tracking handler remove_address exec delete_address
  track_address-remove a r = (
    λ absent.
        let zero_rows = (count_address_iff params.address tracked).1 absent in
        rw (valid, a, r, calm w.issued, zero_rows) (refl, retimed),
    λ row present m of.
        let held = mem-has_reference params.address row transactions m of in
        let some_rows = counted present in
        rw (valid, a, r, calm w.issued, held, some_rows) (refl, refl),
    λ present free.
        let unheld = All-free params.address transactions free in
        let some_rows = counted present in
        rw (valid, a, r, calm w.issued, some_rows, unheld)
          (
            ap
                (λ b. ok (
                  respond 200 (
                    plain (
                      if b
                      then "Address removed from tracking"
                      else "Address was not being tracked"))))
                some_rows,
            retimed,
          ),
  )
    where
      counted :
          times_of params.address tracked ≢ [] → ltb 0 (count_address params.address tracked) ≡ true
      counted present = elim (Bool-cases (ltb 0 (count_address params.address tracked))) [
        | inl e ↦ e
        | inr e ↦
            absurd (present ((count_address_iff params.address tracked).0 (ground (arith, e))))
      ]

      retimed :
          (times_of params.address (delete_rows params.address tracked) ≡ [])
          × ((b : String)
              → b ≢ params.address
              → times_of b (delete_rows params.address tracked) ≡ times_of b tracked)
          × (record w {
            db = record db { tracked = delete_rows params.address tracked };
            issued = suc issued;
          }
              ≡ record w {
                db = record db { tracked = delete_rows params.address tracked };
                issued = suc issued;
              })
      retimed = (
        times_of-delete_rows params.address tracked,
        (λ b. times_of-delete_rows_other params.address b tracked),
        refl,
      )
