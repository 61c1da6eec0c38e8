-- ===== src/Api/Router/Keeps.antt =====
-- What any sequence of requests to the server of src/api/route.rs keeps.
use chain_data_service.Base.{ℕ, String, Option, List, ◌≡◌, refl, sym, ap, ◌∙◌, arith, ℤ, subst}
use chain_data_service.Db.Tables.{Db, TransactionRow, delete_address, select_rows}
use chain_data_service.Db.Exec.{World, exec}
use chain_data_service.Db.Address.{add_address, remove_address, is_address_tracked}
use chain_data_service.Db.Invariant.{IsConsistent}
use chain_data_service.Db.Coherence.{IsCoherent, answer, get_transactions-IsCoherent}
use chain_data_service.Db.Transaction.{select_page, count_rows}
use chain_data_service.Db.Transaction as Stored
use chain_data_service.Api.Handler.{handler, Keeps, keeps, query-Keeps}
use chain_data_service.Api.Route.{
  TrackQuery, TransactionsQuery, check_address, add_tracking, remove_tracking, track_address,
  get_transactions,
}
use chain_data_service.Api.Consistent.{track_address-IsConsistent}
use chain_data_service.Api.Router.{Outside, State, Served, Axum, Request, serve_all}
use chain_data_service.Api.Router.Holds.{serve_all-Keeps}

module _ {F S : Type 0} (decode : String → Option (List ℕ)) (unicode_lower : ℕ → List ℕ) (now : ℤ)
    (w : World F S) where
  -- The stored transactions and the caches stay.
  abbrev IsAside : World F S → Type 0
  IsAside u = (u.db.transactions ≡ w.db.transactions) × (u.cache ≡ w.cache)

  add_tracking-IsAside : (a : String) → IsAside (add_tracking decode unicode_lower now a w).1
  unfolding add_tracking handler add_address exec
  add_tracking-IsAside a = (ground arith, ground arith)

  remove_tracking-IsAside : (a : String) → IsAside (remove_tracking decode unicode_lower now a w).1
  unfolding remove_tracking handler remove_address delete_address exec
  remove_tracking-IsAside a = (ground arith, ground arith)

  pub track_address-IsAside :
      (params : TrackQuery) → IsAside (track_address decode unicode_lower now params w).1
  unfolding track_address check_address handler
  track_address-IsAside params =
      let (stored, cached) = add_tracking-IsAside params.address in
      let (stored', cached') = remove_tracking-IsAside params.address in
      (ground (arith, stored, stored'), ground (arith, cached, cached'))

module _ {F : Type 0} (o : Outside F) where
  -- The pages in the cache are the answers of the database, whose tables are consistent and whose
  -- stored transactions are the given ones.
  pub record IsSound (stored : List (TransactionRow F)) (w : State o) : Type 0 where
    pub consistent : IsConsistent w.db
    pub coherent : IsCoherent o.order o.pages o.flags w.db w.cache
    pub same : w.db.transactions ≡ stored

  pub answer-transactions :
      (db db' : Db F) (a : String) (start_time end_time offset limit : ℤ)
      → db'.transactions ≡ db.transactions
      → answer o.order o.pages o.flags db' a start_time end_time offset limit
        ≡ answer o.order o.pages o.flags db a start_time end_time offset limit
  unfolding select_page select_rows count_rows
  answer-transactions db db' a start_time end_time offset limit e = rw e refl

  -- What keeps the stored transactions and the caches, keeps the cache coherent.
  aside-IsSound :
      (stored : List (TransactionRow F)) (w u : State o)
      → IsConsistent u.db
      → (u.db.transactions ≡ w.db.transactions) × (u.cache ≡ w.cache)
      → IsSound stored w
      → IsSound stored u
  aside-IsSound stored w u consistent (same, cached) v = record {
    consistent = consistent;
    coherent = rw cached (λ a start_time end_time offset limit page hit.
        v.coherent a start_time end_time offset limit page hit
        ∙ sym (answer-transactions w.db u.db a start_time end_time offset limit same));
    same = same ∙ v.same;
  }

  module _ (stored : List (TransactionRow F)) where
    is_address_tracked-IsSound :
        (a : String) (w : State o) → IsSound stored w → IsSound stored (is_address_tracked a w).1
    unfolding is_address_tracked exec
    is_address_tracked-IsSound a w v =
        aside-IsSound stored w (is_address_tracked a w).1
          (subst IsConsistent (ground arith) v.consistent) (ground arith, ground arith) v

    page-IsSound :
        (now : ℤ) (a : String) (start_time end_time offset limit : ℤ) (w : State o)
        → IsSound stored w
        → IsSound stored
            (Stored.get_transactions o.order o.pages o.flags now a start_time end_time offset limit
              w).1
    page-IsSound now a start_time end_time offset limit w v =
        let (coherent, same) =
          get_transactions-IsCoherent o.order o.pages o.flags now a start_time end_time offset limit
            w v.coherent in
        record {
          consistent = subst IsConsistent (sym same) v.consistent;
          coherent = coherent;
          same = ap (λ (db : Db F). db.transactions) same ∙ v.same;
        }

    get_transactions-IsSound :
        (now : ℤ) (params : TransactionsQuery)
        → Keeps
            (IsSound stored)
            (get_transactions o.order o.pages o.flags o.to_json o.decode now params)
    unfolding get_transactions check_address
    get_transactions-IsSound now params =
        search (keeps, query-Keeps, is_address_tracked-IsSound, page-IsSound) depth 20

    track_address-IsSound :
        (now : ℤ) (params : TrackQuery)
        → Keeps (IsSound stored) (track_address o.decode o.unicode_lower now params)
    track_address-IsSound now params = record {
      run = λ w v.
          aside-IsSound stored w (track_address o.decode o.unicode_lower now params w).1
            (track_address-IsConsistent o.decode o.unicode_lower now w v.consistent params)
            (track_address-IsAside o.decode o.unicode_lower now w params) v;
    }

  -- Whatever requests are served one after another, well formed or not, and whatever statements
  -- fail: consistent tables stay consistent, no page in the cache becomes stale, and no stored
  -- transaction is changed, added or removed.
  pub serve_all-IsCoherent :
      (axum : Axum (Served o)) (rs : List Request) (w : State o)
      → IsConsistent w.db
      → IsCoherent o.order o.pages o.flags w.db w.cache
      → let u = serve_all o axum rs w in
        IsConsistent u.db
        × IsCoherent o.order o.pages o.flags u.db u.cache
        × (u.db.transactions ≡ w.db.transactions)
  serve_all-IsCoherent axum rs w consistent coherent =
      let start : IsSound w.db.transactions w = record {
        consistent = consistent;
        coherent = coherent;
        same = refl;
      } in
      let v =
        serve_all-Keeps o (IsSound w.db.transactions) (track_address-IsSound w.db.transactions)
          (get_transactions-IsSound w.db.transactions) axum rs w start in
      (v.consistent, v.coherent, v.same)
