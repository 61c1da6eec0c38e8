-- ===== src/Api/Response.antt =====
-- src/api/response.rs. `serde_json::to_string` is the function `to_json`, whose failure is `none`.
-- A response keeps what the code puts in it; the plain texts are served by `axum` itself.
use chain_data_service.Base.{ℕ, String, Option, none, some, List, ℤ, display}

pub data Body : Type 0 where
  empty : Body
  plain : String → Body
  json : String → Body
  -- Json(json!({ "error": message }))
  error_json : String → Body

pub record Response : Type 0 where
  pub status : ℕ
  -- CONTENT_TYPE, where the code sets it.
  pub content_type : Option String
  -- "X-Total-Count", the printed number.
  pub total_count : Option (List ℕ)
  pub body : Body

-- `(status, body).into_response()`
abbrev pub respond : ℕ → Body → Response
respond status body = record {
  status = status;
  content_type = none;
  total_count = none;
  body = body;
}

module _ {T : Type 0} (to_json : T → Option String) where
  -- `ApiResponse { data }` into a response.
  unfoldable pub api_response : T → Response
  api_response data' = elim (to_json data') [
    | none ↦ respond 500 empty
    | some text ↦ record {
      status = 200;
      content_type = some "application/json";
      total_count = none;
      body = json text;
    }
  ]

  unfoldable pub with_total_count : T → ℤ → Response
  with_total_count data' count = elim (to_json data') [
    | none ↦ respond 500 empty
    | some text ↦ record {
      status = 200;
      content_type = some "application/json";
      total_count = some (display count);
      body = json text;
    }
  ]
