-- ===== src/Api/Router/Holds.antt =====
-- What both handlers of src/api/route.rs keep, every request keeps.
use chain_data_service.Base.{
  List, [], ◌∷◌, Result, ok, err, sym, subst, ℤ, Bool-cases, inl, inr, str_eq, ◌&&◌,
}
use chain_data_service.Api.Error.{ApiError}
use chain_data_service.Api.Response.{Response}
use chain_data_service.Api.Handler.{Keeps}
use chain_data_service.Api.Route.{TrackQuery, TransactionsQuery, track_address, get_transactions}
use chain_data_service.Api.Router.{
  Outside, State, Served, Axum, Request, post_track, get_page, with_query, serve, serve_all, get,
  post, answers,
}
use chain_data_service.Api.Router.Laws.{serve-routes}

module _ {F : Type 0} (o : Outside F) (P : State o → Type 0) where
  with_query-Keeps :
      {T : Type 0} (q : Result T Response) (call : T → State o → Result Response ApiError × State o)
      (w : State o)
      → ((params : T) → P (call params w).1)
      → P w
      → P (with_query q call w).1
  unfolding with_query
  with_query-Keeps (ok params) call w k v = k params
  with_query-Keeps (err refused) call w k v = v

  module _
      (track : (now : ℤ) (params : TrackQuery)
        → Keeps P (track_address o.decode o.unicode_lower now params))
      (page : (now : ℤ) (params : TransactionsQuery)
        → Keeps P (get_transactions o.order o.pages o.flags o.to_json o.decode now params))
      (axum : Axum (Served o)) where
    pub serve-Keeps : (r : Request) (w : State o) → P w → P (serve o axum r w).1
    unfolding post_track get_page
    serve-Keeps r w v =
        let tracked =
          with_query-Keeps (o.track_query r.query) _ w (λ params. (track r.received params).run w v)
            v in
        let paged =
          with_query-Keeps (o.transactions_query r.query) _ w
            (λ params. (page r.received params).run w v) v in
        subst (λ (x : Response × State o). P x.1) (sym (serve-routes o axum r w))
          (elim (Bool-cases (str_eq r.path "/track" && answers post r.method)) [
            | inl e ↦ rw e tracked
            | inr e ↦ elim (Bool-cases (str_eq r.path "/transactions" && answers get r.method)) [
              | inl f ↦ rw (e, f) paged
              | inr f ↦ rw (e, f) v
            ]
          ])

    pub serve_all-Keeps : (rs : List Request) (w : State o) → P w → P (serve_all o axum rs w)
    unfolding serve_all
    serve_all-Keeps [] w v = v
    serve_all-Keeps (r ∷ rs) w v = serve_all-Keeps rs (serve o axum r w).1 (serve-Keeps r w v)
