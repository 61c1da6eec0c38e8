-- ===== src/Api/Served.antt =====
-- What `get_transactions` of src/api/route.rs serves when nothing fails.
use chain_data_service.Base.{
  ℕ, suc, String, Bool, true, Option, List, ok, err, ◌≡◌, refl, ap, arith, ℤ, ltb, ltb_ℤ,
  if◌then◌else◌,
}
use chain_data_service.Models.{Transaction}
use chain_data_service.Validation.{
  validate_solana_address, validate_timestamp, validate_offset, validate_limit,
}
use chain_data_service.Cache.Keys.{CacheKey}
use chain_data_service.Cache.Moka.{Moka}
use chain_data_service.Cache.Transaction.{Page}
use chain_data_service.Cache.Address.{AppCache}
use chain_data_service.Db.Tables.{count_address}
use chain_data_service.Db.Address.{is_address_tracked}
use chain_data_service.Db.Transaction.{RowOrder}
use chain_data_service.Db.Exec.{World, IsCalm, exec}
use chain_data_service.Db.Coherence.{answer, IsCoherent, get_transactions-total}
use chain_data_service.Api.Error.{not_found}
use chain_data_service.Api.Response.{with_total_count}
use chain_data_service.Api.Handler.{Handler, ◌>>=◌, continue, handler}
use chain_data_service.Api.Route.{TransactionsQuery, check_address, get_transactions}

module _ {F S A B : Type 0} where
  bind-eq :
      (m : Handler F S A) (f : A → Handler F S B) (w w' : World F S) {a : A}
      → m w ≡ (ok a, w')
      → (m >>= f) w ≡ f a w'
  unfolding ◌>>=◌
  bind-eq m f w w' e = ap (λ r. continue r.0 f r.1) e

is_address_tracked-eq :
    {F S : Type 0} (a : String) (w : World F S)
    → IsCalm w
    → is_address_tracked a w
      ≡ (ok (ltb 0 (count_address a w.db.tracked)), record w { issued = suc w.issued })
unfolding is_address_tracked exec
is_address_tracked-eq a w calm = rw (calm w.issued) refl

module _ {F : Type 0} (order : RowOrder F) (m : Moka CacheKey (Page F)) (n : Moka String Bool)
    (to_json : List (Transaction F) → Option String) (decode : String → Option (List ℕ))
    (now : ℤ) where
  pub get_transactions-served :
      (params : TransactionsQuery) (w : World F (AppCache m n))
      (start_time end_time offset limit : ℤ)
      → IsCalm w
      → IsCoherent order m n w.db w.cache
      → validate_solana_address decode params.address ≡ ok tt
      → validate_timestamp params.start_time ≡ ok start_time
      → validate_timestamp params.end_time ≡ ok end_time
      → validate_offset params.offset ≡ ok offset
      → validate_limit params.limit ≡ ok limit
      → ltb_ℤ start_time end_time ≡ true
      → (get_transactions order m n to_json decode now params w).0 ≡ (
          let (transactions, total_count) =
            answer order m n w.db params.address start_time end_time offset limit in
          if ltb 0 (count_address params.address w.db.tracked)
          then ok (with_total_count to_json transactions total_count)
          else err (not_found "Address is not being tracked"))
  unfolding get_transactions check_address handler
  get_transactions-served params w start_time end_time offset limit calm coherent valid s e o l lt =
      let w1 : World F (AppCache m n) = record w { issued = suc w.issued } in
      let total =
        get_transactions-total order m n now params.address start_time end_time offset limit w1 calm
          coherent in
      let asked = is_address_tracked-eq params.address w calm in
      ground (arith, valid, s, e, o, l, lt, asked, total)
