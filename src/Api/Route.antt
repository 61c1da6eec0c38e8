-- ===== src/Api/Route.antt =====
-- src/api/route.rs: the two handlers. `axum` parses the query string into the records. `decode` is
-- `bs58::decode`, `now` the clock in seconds, and `unicode_lower` the lower case of a character
-- outside ASCII.
use chain_data_service.Base.{
  ℕ, ◌+◌, String, Bool, true, false, Option, List, [], ◌∷◌, ◌++◌, ℤ, leb, ltb, ltb_ℤ, ◌==◌, ◌&&◌,
  ◌||◌, if◌then◌else◌, codes, map_err,
}
use chain_data_service.Models.{Transaction}
use chain_data_service.Validation.{
  validate_solana_address, validate_timestamp, validate_offset, validate_limit,
}
use chain_data_service.Cache.Keys.{CacheKey}
use chain_data_service.Cache.Moka.{Moka}
use chain_data_service.Cache.Transaction.{Page}
use chain_data_service.Cache.Address.{AppCache}
use chain_data_service.Db.Address.{add_address, remove_address, is_address_tracked}
use chain_data_service.Db.Transaction.{RowOrder}
use chain_data_service.Db.Transaction
use chain_data_service.Api.Error.{invalid_address, invalid_parameter, not_found}
use chain_data_service.Api.Response.{Response, plain, respond, with_total_count}
use chain_data_service.Api.Handler.{Handler, ◌>>=◌, ◌>>◌, pure, of_result, check, query, require}

pub record TrackQuery : Type 0 where
  pub address : String
  pub action : String

pub record TransactionsQuery : Type 0 where
  pub address : String
  pub start_time : String
  pub end_time : String
  pub offset : String
  pub limit : String

-- `str::to_lowercase`, over code points.
unfoldable pub to_lowercase : (ℕ → List ℕ) → List ℕ → List ℕ
to_lowercase unicode_lower [] = []
to_lowercase unicode_lower (c ∷ cs) =
    (if ltb c 128 then (if leb b'A' c && leb c b'Z' then c + 32 else c) ∷ [] else unicode_lower c)
    ++ to_lowercase unicode_lower cs

unfoldable pub same_codes : List ℕ → List ℕ → Bool
same_codes [] [] = true
same_codes (c ∷ cs) (d ∷ ds) = c == d && same_codes cs ds
same_codes _ _ = false

-- `action == text`, with the action in lower case.
unfoldable pub is_action : (ℕ → List ℕ) → String → String → Bool
unfolding to_lowercase same_codes
is_action unicode_lower action text =
    same_codes (to_lowercase unicode_lower (codes action)) (codes text)

-- `validate_solana_address(..).map_err(|_| ApiError::InvalidAddress)?`
unfoldable pub check_address :
    {F S : Type 0} → (String → Option (List ℕ)) → String → Handler F S (Unit {0})
check_address decode address =
    of_result (map_err (λ _. invalid_address) (validate_solana_address decode address))

module _ {F S : Type 0} (decode : String → Option (List ℕ)) (unicode_lower : ℕ → List ℕ)
    (now : ℤ) where
  unfoldable pub add_tracking : String → Handler F S Response
  add_tracking address = do
    query (add_address decode now address)
    pure (respond 201 (plain "Address added to tracking"))

  unfoldable pub remove_tracking : String → Handler F S Response
  remove_tracking address = do
    removed ← query (remove_address address)
    pure (
        respond 200 (
          plain
            (if removed then "Address removed from tracking" else "Address was not being tracked")))

  unfoldable pub track_address : TrackQuery → Handler F S Response
  track_address params = do
    check_address decode params.address
    let is = is_action unicode_lower params.action
    require (is "add" || is "remove") (invalid_parameter "Action must be either 'add' or 'remove'")
    if is "add" then add_tracking params.address else remove_tracking params.address

module _ {F : Type 0} (order : RowOrder F) (m : Moka CacheKey (Page F)) (n : Moka String Bool)
    (to_json : List (Transaction F) → Option String) (decode : String → Option (List ℕ))
    (now : ℤ) where
  unfoldable pub get_transactions : TransactionsQuery → Handler F (AppCache m n) Response
  get_transactions params = do
    check_address decode params.address
    start_time ← check (validate_timestamp params.start_time)
    end_time ← check (validate_timestamp params.end_time)
    offset ← check (validate_offset params.offset)
    limit ← check (validate_limit params.limit)
    require (ltb_ℤ start_time end_time) (invalid_parameter "start_time must be less than end_time")
    is_tracked ← query (is_address_tracked params.address)
    require is_tracked (not_found "Address is not being tracked")
    (transactions, total_count) ←
        query (
          Transaction.get_transactions order m n now params.address start_time end_time offset
            limit)
    pure (with_total_count to_json transactions total_count)
