-- ===== src/Api/Consistent.antt =====
-- The handlers of src/api/route.rs keep the tables consistent.
use chain_data_service.Base.{ℕ, String, Option, List, ℤ, arith}
use chain_data_service.Db.Exec.{World}
use chain_data_service.Db.Invariant.{IsConsistent}
use chain_data_service.Db.Keeps.{IsConsistent-IsStable, add_address-Keeps, remove_address-Keeps}
use chain_data_service.Api.Handler.{handler}
use chain_data_service.Api.Route.{
  TrackQuery, check_address, add_tracking, remove_tracking, track_address,
}

module _ {F S : Type 0} (decode : String → Option (List ℕ)) (unicode_lower : ℕ → List ℕ) (now : ℤ)
    (w : World F S) (consistent : IsConsistent w.db) where
  add_tracking-IsConsistent :
      (a : String) → IsConsistent (add_tracking decode unicode_lower now a w).1.db
  unfolding add_tracking handler
  add_tracking-IsConsistent a =
      ground (
        arith,
        (add_address-Keeps IsConsistent IsConsistent-IsStable decode now a).run w consistent,
      )

  remove_tracking-IsConsistent :
      (a : String) → IsConsistent (remove_tracking decode unicode_lower now a w).1.db
  unfolding remove_tracking handler
  remove_tracking-IsConsistent a =
      ground (arith, (remove_address-Keeps IsConsistent IsConsistent-IsStable a).run w consistent)

  -- Whatever is asked of it, and whatever statements fail, a request to track or to remove an
  -- address keeps a consistent database consistent.
  pub track_address-IsConsistent :
      (params : TrackQuery) → IsConsistent (track_address decode unicode_lower now params w).1.db
  unfolding track_address check_address handler
  track_address-IsConsistent params =
      ground (
        arith,
        add_tracking-IsConsistent params.address,
        remove_tracking-IsConsistent params.address,
      )
