-- ===== src/Program/Life/Holds.antt =====
-- What the statements of src/db keep, the requests and the batches of the program keep.
use chain_data_service.Base.{
  ℕ, String, List, [], ◌∷◌, ◌≡◌, sym, subst, ℤ, arith, Bool, true, false, if◌then◌else◌,
}
use chain_data_service.Models.{Transaction}
use chain_data_service.Db.Tables.{Db, TransactionRow}
use chain_data_service.Db.Exec.{exec}
use chain_data_service.Db.Address.{is_address_tracked}
use chain_data_service.Db.Keeps.{IsStable, add_address-Keeps, remove_address-Keeps}
use chain_data_service.Db.Transaction.{to_row}
use chain_data_service.Db.Transaction as Stored
use chain_data_service.Db.Coherence.{get_transactions-after}
use chain_data_service.Blockchain.Services.{Services}
use chain_data_service.Blockchain.Services.Laws.{IsYielded}
use chain_data_service.Api.Handler.{Keeps, keeps, query-Keeps}
use chain_data_service.Api.Route.{
  TrackQuery, TransactionsQuery, check_address, add_tracking, remove_tracking, track_address,
  get_transactions,
}
use chain_data_service.Api.Router.Holds.{serve-Keeps}
use chain_data_service.Blockchain.Processor.{SetOrder}
use chain_data_service.Blockchain.Processor.Keeps.{run-Keeps}
use chain_data_service.Api.Router.{Outside, State, Served, Axum}
use chain_data_service.Program.Life.{Happening, request, batch, happen, live}

-- The handlers keep what the statements keep.
module _ {F : Type 0} (o : Outside F) (P : Db F → Type 0) {Q : TransactionRow F → Type 0}
    (stable : IsStable P Q) where
  abbrev pub Holds : State o → Type 0
  Holds w = P w.db

  add_tracking-Keeps :
      (now : ℤ) (a : String) → Keeps Holds (add_tracking o.decode o.unicode_lower now a)
  unfolding add_tracking
  add_tracking-Keeps now a =
      search (keeps, query-Keeps, (add_address-Keeps P stable o.decode now a).run)

  remove_tracking-Keeps :
      (now : ℤ) (a : String) → Keeps Holds (remove_tracking o.decode o.unicode_lower now a)
  unfolding remove_tracking
  remove_tracking-Keeps now a = search (keeps, query-Keeps, (remove_address-Keeps P stable a).run)

  tracking-Keeps :
      (now : ℤ) (a : String) (b : Bool)
      → Keeps Holds (
          if b
          then add_tracking o.decode o.unicode_lower now a
          else remove_tracking o.decode o.unicode_lower now a)
  tracking-Keeps now a true = add_tracking-Keeps now a
  tracking-Keeps now a false = remove_tracking-Keeps now a

  track_address-Keeps :
      (now : ℤ) (params : TrackQuery)
      → Keeps Holds (track_address o.decode o.unicode_lower now params)
  unfolding track_address check_address
  track_address-Keeps now params = search (keeps, tracking-Keeps) depth 12

  is_address_tracked-db : (a : String) (w : State o) → (is_address_tracked a w).1.db ≡ w.db
  unfolding is_address_tracked exec
  is_address_tracked-db a w = ground arith

  asked : (a : String) (w : State o) → Holds w → Holds (is_address_tracked a w).1
  asked a w h = subst P (sym (is_address_tracked-db a w)) h

  paged :
      (now : ℤ) (a : String) (start_time end_time offset limit : ℤ) (w : State o)
      → Holds w
      → Holds
          (Stored.get_transactions o.order o.pages o.flags now a start_time end_time offset limit
            w).1
  paged now a start_time end_time offset limit w h =
      let (same, _) =
        get_transactions-after o.order o.pages o.flags now a start_time end_time offset limit w in
      subst P (sym same) h

  get_transactions-Keeps :
      (now : ℤ) (params : TransactionsQuery)
      → Keeps Holds (get_transactions o.order o.pages o.flags o.to_json o.decode now params)
  unfolding get_transactions check_address
  get_transactions-Keeps now params = search (keeps, query-Keeps, asked, paged) depth 20

  module _ (axum : Axum (Served o)) (services : Services F) (clock : ℕ → ℤ) (set : SetOrder)
      (yields : (t : Transaction F) → IsYielded services t → Q (to_row t)) where
    happen-Holds :
        (h : Happening F) (w : State o) → Holds w → Holds (happen o axum services clock set h w)
    unfolding happen
    happen-Holds (request r) w v =
        serve-Keeps o Holds track_address-Keeps get_transactions-Keeps axum r w v
    happen-Holds (batch asked ts) w v =
        (run-Keeps P stable o.decode clock services set yields asked (ts ∷ [])).run w v

    pub live-Holds :
        (hs : List (Happening F)) (w : State o)
        → Holds w
        → Holds (live o axum services clock set hs w)
    unfolding live
    live-Holds [] w v = v
    live-Holds (h ∷ hs) w v = live-Holds hs _ (happen-Holds h w v)
