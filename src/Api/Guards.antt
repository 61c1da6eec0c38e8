-- ===== src/Api/Guards.antt =====
-- What has been checked before a handler of src/api/route.rs reads or changes anything.
use chain_data_service.Base.{ℕ, String, Bool, true, Option, List, ok, err, ◌≡◌, arith, ℤ, ltb_ℤ}
use chain_data_service.Models.{Transaction}
use chain_data_service.Validation.{
  validate_solana_address, validate_timestamp, validate_offset, validate_limit,
}
use chain_data_service.Cache.Keys.{CacheKey}
use chain_data_service.Cache.Moka.{Moka}
use chain_data_service.Cache.Transaction.{Page}
use chain_data_service.Cache.Address.{AppCache}
use chain_data_service.Db.Transaction.{RowOrder}
use chain_data_service.Db.Exec.{World}
use chain_data_service.Api.Error.{ApiError, invalid_address, status_of}
use chain_data_service.Api.Response.{Response}
use chain_data_service.Api.Handler.{handler, >>=-eq-ok, check-eq-ok, require-eq-ok}
use chain_data_service.Api.Route.{
  TrackQuery, TransactionsQuery, check_address, add_tracking, remove_tracking, track_address,
  get_transactions,
}

module _ {F S : Type 0} (decode : String → Option (List ℕ)) (unicode_lower : ℕ → List ℕ)
    (now : ℤ) where
  add_tracking-server_error :
      (a : String) (w : World F S) (e : ApiError)
      → (add_tracking decode unicode_lower now a w).0 ≡ err e
      → status_of e ≡ 500
  unfolding add_tracking handler status_of
  add_tracking-server_error a w e h = ground arith

  remove_tracking-server_error :
      (a : String) (w : World F S) (e : ApiError)
      → (remove_tracking decode unicode_lower now a w).0 ≡ err e
      → status_of e ≡ 500
  unfolding remove_tracking handler status_of
  remove_tracking-server_error a w e h = ground arith

  -- A request to track that is answered with status 400 has sent no statement and changed nothing.
  pub track_address-client_error :
      (params : TrackQuery) (w : World F S) (e : ApiError)
      → (track_address decode unicode_lower now params w).0 ≡ err e
      → status_of e ≡ 400
      → (track_address decode unicode_lower now params w).1 ≡ w
  unfolding track_address check_address handler
  track_address-client_error params w e h k = ground (
    arith,
    add_tracking-server_error params.address w e,
    remove_tracking-server_error params.address w e,
  )

module _ {F : Type 0} (order : RowOrder F) (m : Moka CacheKey (Page F)) (n : Moka String Bool)
    (to_json : List (Transaction F) → Option String) (decode : String → Option (List ℕ))
    (now : ℤ) where
  -- A request for transactions that is answered with status 400 has sent no statement and changed
  -- nothing.
  pub get_transactions-client_error :
      (params : TransactionsQuery) (w : World F (AppCache m n)) (e : ApiError)
      → (get_transactions order m n to_json decode now params w).0 ≡ err e
      → status_of e ≡ 400
      → (get_transactions order m n to_json decode now params w).1 ≡ w
  unfolding get_transactions check_address handler status_of
  get_transactions-client_error params w e h k = ground arith

  -- When a page is served, the address passed its check, the two timestamps were read and are in
  -- order, and the offset and the limit passed their checks.
  pub get_transactions-ok :
      (params : TransactionsQuery) (w : World F (AppCache m n)) (r : Response)
      → (get_transactions order m n to_json decode now params w).0 ≡ ok r
      → (start_time : ℤ) × (end_time : ℤ) × (offset : ℤ) × (limit : ℤ) × (validate_timestamp
            params.start_time
          ≡ ok start_time)
        × (validate_timestamp params.end_time ≡ ok end_time)
        × (validate_offset params.offset ≡ ok offset)
        × (validate_limit params.limit ≡ ok limit)
        × (validate_solana_address decode params.address ≡ ok tt)
        × (ltb_ℤ start_time end_time ≡ true)
  unfolding get_transactions check_address
  get_transactions-ok params w r h =
      let (_, valid, h1) = >>=-eq-ok _ _ w h in
      let (start_time, p1, h2) = >>=-eq-ok _ _ _ h1 in
      let (end_time, p2, h3) = >>=-eq-ok _ _ _ h2 in
      let (offset, p3, h4) = >>=-eq-ok _ _ _ h3 in
      let (limit, p4, h5) = >>=-eq-ok _ _ _ h4 in
      let (_, p5, h6) = >>=-eq-ok _ _ _ h5 in
      (
        start_time,
        end_time,
        offset,
        limit,
        check-eq-ok _ _ _ p1,
        check-eq-ok _ _ _ p2,
        check-eq-ok _ _ _ p3,
        check-eq-ok _ _ _ p4,
        check-eq-ok (λ _. invalid_address) (validate_solana_address decode params.address) w valid,
        require-eq-ok _ _ _ p5,
      )
