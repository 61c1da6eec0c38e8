-- ===== src/Api/Router.antt =====
-- `create_router` of src/api/route.rs and what a request to the server comes to. The routing of
-- `axum` is the parameter `Axum`; the parsers of the query strings are parameters too, each with
-- the response for a text that it rejects. HTTP requests are served one after another.
pub mod Laws
pub mod Holds
pub mod Keeps
use chain_data_service.Base.{
  ℕ, String, Bool, true, false, Option, none, some, List, [], ◌∷◌, Result, ok, err, ◌≡◌, ◌⊎◌, ℤ,
}
use chain_data_service.Models.{Transaction}
use chain_data_service.Cache.Keys.{CacheKey}
use chain_data_service.Cache.Moka.{Moka}
use chain_data_service.Cache.Transaction.{Page}
use chain_data_service.Cache.Address.{AppCache}
use chain_data_service.Db.Transaction.{RowOrder}
use chain_data_service.Db.Exec.{World}
use chain_data_service.Api.Error.{ApiError, into_response}
use chain_data_service.Api.Response.{Response, empty}
use chain_data_service.Api.Route.{TrackQuery, TransactionsQuery, track_address, get_transactions}

pub data Method : Type 0 where
  get : Method
  head : Method
  post : Method
  other : Method

-- What `get(..)` and `post(..)` answer.
unfoldable pub answers : Method → Method → Bool
answers get get = true
answers get head = true
answers head head = true
answers post post = true
answers _ _ = false

-- `axum` removes the body from the answer of a route to HEAD.
unfoldable pub for_method : Method → Response → Response
for_method head response = record response { body = empty }
for_method get response = response
for_method post response = response
for_method other response = response

pub record Route (H : Type 0) : Type 0 where
  pub path : String
  pub method : Method
  pub handler : H

unfoldable pub Listed : {H : Type 0} → Route H → List (Route H) → Type 0
Listed r [] = ⊥
Listed r (s ∷ rs) = (s ≡ r) ⊎ Listed r rs

-- The routing that `axum` documents: a request goes to a route of its path that answers its method,
-- where there is one, the paths being different; and what is sent when there is none.
pub record Axum (H : Type 0) : Type 0 where
  pub find : List (Route H) → Method → String → Option H
  pub refuse : Method → String → Response
  pub find-some :
      (rs : List (Route H)) (m : Method) (p : String) (h : H)
      → find rs m p ≡ some h
      → (r : Route H) × Listed r rs × (r.path ≡ p) × (answers r.method m ≡ true) × (r.handler ≡ h)
  pub find-Listed :
      (rs : List (Route H)) (m : Method) (r : Route H)
      → Listed r rs
      → ((s : Route H) → Listed s rs → s.path ≡ r.path → s ≡ r)
      → answers r.method m ≡ true
      → find rs m r.path ≡ some r.handler

pub record Request : Type 0 where
  pub method : Method
  pub path : String
  pub query : String
  -- The clock when it is served.
  pub received : ℤ

-- `IntoResponse for Result<Response, ApiError>`
unfoldable pub response_of : Result Response ApiError → Response
response_of (ok r) = r
response_of (err e) = into_response e

-- `Query<T>` in front of a handler.
unfoldable pub with_query :
    {W T : Type 0} → Result T Response → (T → W → Result Response ApiError × W) → W → Response × W
unfolding response_of
with_query (ok params) handler w = let (r, w') = handler params w in (response_of r, w')
with_query (err refused) handler w = (refused, w)

-- What the server uses from outside: the order of rows, the caches, the serializer, the decoder of
-- addresses, the lower case outside ASCII, and the parsers of the two query strings.
pub record Outside (F : Type 0) : Type 1 where
  pub order : RowOrder F
  pub pages : Moka CacheKey (Page F)
  pub flags : Moka String Bool
  pub to_json : List (Transaction F) → Option String
  pub decode : String → Option (List ℕ)
  pub unicode_lower : ℕ → List ℕ
  pub track_query : String → Result TrackQuery Response
  pub transactions_query : String → Result TransactionsQuery Response

module _ {F : Type 0} (o : Outside F) where
  abbrev pub State : Type 0
  State = World F (AppCache o.pages o.flags)

  abbrev pub Served : Type 0
  Served = ℤ → String → State → Response × State

  unfoldable pub post_track : Served
  unfolding with_query
  post_track now query =
      with_query (o.track_query query) (track_address o.decode o.unicode_lower now)

  unfoldable pub get_page : Served
  unfolding with_query
  get_page now query =
      with_query (o.transactions_query query)
        (get_transactions o.order o.pages o.flags o.to_json o.decode now)

  abbrev pub track_route : Route Served
  track_route = record { path = "/track"; method = post; handler = post_track }

  abbrev pub transactions_route : Route Served
  transactions_route = record { path = "/transactions"; method = get; handler = get_page }

  unfoldable pub create_router : List (Route Served)
  create_router = track_route ∷ transactions_route ∷ []

  module _ (axum : Axum Served) where
    unfoldable pub respond_with : Option Served → Request → State → Response × State
    unfolding for_method
    respond_with (some handler) r w =
        let (response, w') = handler r.received r.query w in (for_method r.method response, w')
    respond_with none r w = (axum.refuse r.method r.path, w)

    -- One request.
    unfoldable pub serve : Request → State → Response × State
    unfolding create_router respond_with
    serve r w = respond_with (axum.find create_router r.method r.path) r w

    -- The state after requests, one after another.
    unfoldable pub serve_all : List Request → State → State
    unfolding serve
    serve_all [] w = w
    serve_all (r ∷ rs) w = serve_all rs (serve r w).1
