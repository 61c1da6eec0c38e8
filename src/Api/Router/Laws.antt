-- ===== src/Api/Router/Laws.antt =====
-- Which handler of src/api/route.rs a request reaches.
use chain_data_service.Base.{
  String, Bool, str_eq, eq_iff, Bool-cases, ◌&&◌, if◌then◌else◌, true, false, some, ◌≡◌, ◌≢◌, ◌⊎◌,
  inl, inr, refl, sym, subst, ap, ◌∙◌, Option-cases, arith,
}
use chain_data_service.Api.Response.{Response, empty}
use chain_data_service.Api.Router.{
  Outside, State, Method, get, head, post, other, for_method, answers, Route, Listed, Axum, Request,
  Served, post_track, get_page, track_route, transactions_route, create_router, serve, respond_with,
}

different : (a b : String) → a ≡ "/track" → b ≡ "/transactions" → a ≢ b
different a b e f same =
    let tested : true ≡ false = ap (str_eq "/track") (sym e ∙ same ∙ f) in
    absurd (ground (arith, tested))

unfoldable pub is_head : Method → Bool
is_head head = true
is_head _ = false

module _ {F : Type 0} (o : Outside F) (axum : Axum (Served o)) where
  listed :
      (s : Route (Served o))
      → Listed s (create_router o)
      → (s ≡ track_route o) ⊎ (s ≡ transactions_route o)
  unfolding create_router Listed
  listed s (inl e) = inl (sym e)
  listed s (inr (inl e)) = inr (sym e)
  listed s (inr (inr e)) = absurd e

  -- The request is one for a route of the table.
  abbrev IsTrack : Request → Type 0
  IsTrack r = (r.path ≡ "/track") × (r.method ≡ post)

  abbrev IsTransactions : Request → Type 0
  IsTransactions r = (r.path ≡ "/transactions") × (answers get r.method ≡ true)

  answers_post : (m : Method) → answers post m ≡ true → m ≡ post
  unfolding answers
  answers_post m h = ground arith

  is_track : (r : Request) → str_eq r.path "/track" && answers post r.method ≡ true → IsTrack r
  is_track r e =
      (ground (arith, e, eq_iff r.path "/track"), answers_post r.method (ground (arith, e)))

  is_transactions :
      (r : Request)
      → str_eq r.path "/transactions" && answers get r.method ≡ true
      → IsTransactions r
  is_transactions r e = (ground (arith, e, eq_iff r.path "/transactions"), ground (arith, e))

  misses_first :
      (r : Request) → str_eq r.path "/track" && answers post r.method ≡ false → ¬ IsTrack r
  unfolding answers
  misses_first r e = λ (p, m). ground (arith, e, p, m, eq_iff r.path "/track")

  misses_second :
      (r : Request)
      → str_eq r.path "/transactions" && answers get r.method ≡ false
      → ¬ IsTransactions r
  misses_second r e = λ (p, a). ground (arith, e, p, a, eq_iff r.path "/transactions")

  only_track :
      (s : Route (Served o)) → Listed s (create_router o) → s.path ≡ "/track" → s ≡ track_route o
  only_track s l e = elim (listed s l) [
    | inl same ↦ same
    | inr same ↦
        absurd
          (different s.path "/transactions" e refl (ap (λ (r : Route (Served o)). r.path) same))
  ]

  only_transactions :
      (s : Route (Served o))
      → Listed s (create_router o)
      → s.path ≡ "/transactions"
      → s ≡ transactions_route o
  only_transactions s l e = elim (listed s l) [
    | inl same ↦
        absurd (different "/track" s.path refl e (sym (ap (λ (r : Route (Served o)). r.path) same)))
    | inr same ↦ same
  ]

  found :
      (r : Request) (h : Served o)
      → axum.find (create_router o) r.method r.path ≡ some h
      → IsTrack r ⊎ IsTransactions r
  found r h e =
      let (route, l, p, k, same) = axum.find-some (create_router o) r.method r.path h e in
      elim (listed route l) [
        | inl is ↦ inl (
          sym p ∙ ap (λ (s : Route (Served o)). s.path) is,
          answers_post r.method
              (subst (λ (s : Route (Served o)). answers s.method r.method ≡ true) is k),
        )
        | inr is ↦ inr (
          sym p ∙ ap (λ (s : Route (Served o)). s.path) is,
          subst (λ (s : Route (Served o)). answers s.method r.method ≡ true) is k,
        )
      ]

  find_track : axum.find (create_router o) post "/track" ≡ some (post_track o)
  unfolding create_router Listed answers
  find_track = axum.find-Listed (create_router o) post (track_route o) (inl refl) only_track refl

  find_transactions :
      (m : Method)
      → answers get m ≡ true
      → axum.find (create_router o) m "/transactions" ≡ some (get_page o)
  unfolding create_router Listed
  find_transactions m a =
      axum.find-Listed (create_router o) m (transactions_route o) (inr (inl refl)) only_transactions
        a

  for_method-eq :
      (m : Method) (response : Response)
      → for_method m response
        ≡ record response { body = if is_head m then empty else response.body }
  unfolding for_method is_head
  for_method-eq get response = refl
  for_method-eq head response = refl
  for_method-eq post response = refl
  for_method-eq other response = refl

  -- What the handler of a page answers, and to HEAD the same without its body.
  abbrev pub paged : Request → State o → Response × State o
  paged r w =
      let (response, w') = get_page o r.received r.query w in
      (record response { body = if is_head r.method then empty else response.body }, w')

  serve-track :
      (r : Request) (w : State o) → IsTrack r → serve o axum r w ≡ post_track o r.received r.query w
  unfolding serve respond_with for_method
  serve-track r w (p, m) = rw (p, m, find_track) refl

  serve-transactions : (r : Request) (w : State o) → IsTransactions r → serve o axum r w ≡ paged r w
  unfolding serve respond_with
  serve-transactions r w (p, a) =
      rw (p, find_transactions r.method a)
        (ap (λ response. (response, (get_page o r.received r.query w).1))
          (for_method-eq r.method _))

  serve-refused :
      (r : Request) (w : State o)
      → ¬ IsTrack r
      → ¬ IsTransactions r
      → serve o axum r w ≡ (axum.refuse r.method r.path, w)
  unfolding serve respond_with
  serve-refused r w misses_first misses_second =
      elim (Option-cases (axum.find (create_router o) r.method r.path)) [
        | inl e ↦ rw e refl
        | inr (h, e) ↦
            absurd (elim (found r h e) [ inl t ↦ misses_first t | inr t ↦ misses_second t ])
      ]

  -- A POST for /track is answered by the handler that changes the tracked addresses, a GET for
  -- /transactions by the one that reads a page, a HEAD for it in the same way without the body, and
  -- every other request is refused, with no statement and no change.
  pub serve-routes :
      (r : Request) (w : State o)
      → serve o axum r w ≡ (
          if str_eq r.path "/track" && answers post r.method
          then post_track o r.received r.query w
          else if str_eq r.path "/transactions" && answers get r.method
          then paged r w
          else (axum.refuse r.method r.path, w))
  serve-routes r w = elim (Bool-cases (str_eq r.path "/track" && answers post r.method)) [
    | inl e ↦ rw e (serve-track r w (is_track r e))
    | inr e ↦ elim (Bool-cases (str_eq r.path "/transactions" && answers get r.method)) [
      | inl f ↦ rw (e, f) (serve-transactions r w (is_transactions r f))
      | inr f ↦ rw (e, f) (serve-refused r w (misses_first r e) (misses_second r f))
    ]
  ]
