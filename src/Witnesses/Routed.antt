-- ===== src/Witnesses/Routed.antt =====
-- The theorems of Api.Router, with a router that takes the first route that fits, at two requests.
use chain_data_service.Base.{
  ℕ, String, Bool, true, none, some, Option, List, [], ◌∷◌, err, ok, pos, ◌≡◌, inl, inr, refl, ap,
  str_eq, eq_iff, ◌&&◌, if◌then◌else◌, Bool-cases, arith,
}
use chain_data_service.Db.Invariant.{IsConsistent, insert_transaction-IsConsistent}
use chain_data_service.Db.Tables.{
  insert_transaction, has_signature, references_ok, destination_ok, count_address, is_text,
}
use chain_data_service.Db.Transaction.{to_row}
use chain_data_service.Witnesses.Chain.{tables-IsConsistent}
use chain_data_service.Witnesses.Served.{paid-IsCoherent}
use chain_data_service.Db.Coherence.{IsCoherent}
use chain_data_service.Api.Response.{plain, respond}
use chain_data_service.Api.Router.{
  Method, get, post, answers, Route, Listed, Axum, Request, Outside, State, post_track, serve,
  serve_all,
}
use chain_data_service.Api.Router.Laws.{serve-routes}
use chain_data_service.Api.Router.Keeps.{serve_all-IsCoherent}
use chain_data_service.Fixtures.{
  payment, tables, paid, calm_world, caches, keep_nothing, keep, by_time, decode,
}

module _ {H : Type 0} where
  unfoldable pub fits : Method → String → Route H → Bool
  fits m p r = str_eq r.path p && answers r.method m

  unfoldable pub first : List (Route H) → Method → String → Option H
  unfolding fits
  first [] m p = none
  first (r ∷ rs) m p = if fits m p r then some r.handler else first rs m p

  pub first-some :
      (rs : List (Route H)) (m : Method) (p : String) (h : H)
      → first rs m p ≡ some h
      → (r : Route H) × Listed r rs × (r.path ≡ p) × (answers r.method m ≡ true) × (r.handler ≡ h)
  unfolding first fits Listed
  first-some [] m p h e = absurd (ground (arith, e))
  first-some (r ∷ rs) m p h e = elim (Bool-cases (fits m p r)) [
    | inl hit ↦ (
      r,
      inl refl,
      ground (arith, hit, eq_iff r.path p),
      ground (arith, hit),
      ground (arith, e, hit),
    )
    | inr miss ↦
        let (s, l, same_path, a, same) = first-some rs m p h (rw miss at e) in
        (s, inr l, same_path, a, same)
  ]

  pub first-Listed :
      (rs : List (Route H)) (m : Method) (r : Route H)
      → Listed r rs
      → ((s : Route H) → Listed s rs → s.path ≡ r.path → s ≡ r)
      → answers r.method m ≡ true
      → first rs m r.path ≡ some r.handler
  unfolding first fits Listed
  first-Listed [] m r l only a = absurd l
  first-Listed (s ∷ rs) m r l only a = elim (Bool-cases (fits m r.path s)) [
    | inl hit ↦ rw hit (
        ap (λ (x : Route H). some x.handler)
          (only s (inl refl) (ground (arith, hit, eq_iff s.path r.path))))
    | inr miss ↦ elim l [
      | inl same ↦ absurd (
          ground (
            arith,
            miss,
            a,
            eq_iff s.path r.path,
            ap (λ (x : Route H). x.path) same,
            ap (λ (x : Route H). answers x.method m) same,
          ))
      | inr later ↦ rw miss (first-Listed rs m r later (λ t k. only t (inr k)) a)
    ]
  ]

  unfoldable pub first_fit : Axum H
  unfolding first
  first_fit = record {
    find = first;
    refuse = λ m p. respond 404 (plain "");
    find-some = first-some;
    find-Listed = first-Listed;
  }

abbrev pub outside : Outside ℕ
outside = record {
  order = by_time;
  pages = keep_nothing;
  flags = keep_nothing;
  to_json = λ ts. some "[]";
  decode = decode;
  unicode_lower = keep;
  track_query = λ q. ok (record { address = "A"; action = "remove" });
  transactions_query = λ q. err (respond 400 (plain ""));
}

abbrev asked : State outside
asked = calm_world paid caches

abbrev pub track : Request
track = record { method = post; path = "/track"; query = ""; received = pos 9 }

serve-routes_example : serve outside first_fit track asked ≡ post_track outside (pos 9) "" asked
unfolding answers
serve-routes_example = serve-routes outside first_fit track asked

pub paid-IsConsistent : IsConsistent paid
unfolding insert_transaction has_signature references_ok destination_ok count_address is_text to_row
paid-IsConsistent = insert_transaction-IsConsistent (to_row payment) tables tables-IsConsistent

abbrev pub page : Request
page = record { method = get; path = "/transactions"; query = ""; received = pos 10 }

serve_all-IsCoherent_example :
    let u = serve_all outside first_fit (track ∷ page ∷ []) asked in
    IsConsistent u.db
    × IsCoherent by_time keep_nothing keep_nothing u.db u.cache
    × (u.db.transactions ≡ paid.transactions)
serve_all-IsCoherent_example =
    serve_all-IsCoherent outside first_fit (track ∷ page ∷ []) asked paid-IsConsistent
      paid-IsCoherent
