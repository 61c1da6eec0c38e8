-- ===== src/Db/Address.antt =====
-- src/db/address.rs. The time of the call is the argument `now`, and `decode` is `bs58::decode`.
use mathlib.Core.List.{filter_map}
use chain_data_service.Base.{ℕ, String, Bool, Option, List, ok, map_err, ℤ, ltb}
use chain_data_service.Validation.{validate_solana_address, to_string}
use chain_data_service.Db.Tables.{protocol, AddressRow, count_address, upsert, delete_address}
use chain_data_service.Db.Exec.{Exec, ◌>>=◌, ◌>>◌, pure, lift, statement}

module _ {F S : Type 0} where
  unfoldable pub add_address : (String → Option (List ℕ)) → ℤ → String → Exec F S (Unit {0})
  add_address decode now address = do
    lift (map_err (λ e. protocol (to_string e)) (validate_solana_address decode address))
    statement (λ db. (ok tt, record db { tracked = upsert address now db.tracked }))

  unfoldable pub remove_address : String → Exec F S Bool
  remove_address address = do
    rows_affected ← statement (delete_address address)
    pure (ltb 0 rows_affected)

  unfoldable pub is_address_tracked : String → Exec F S Bool
  is_address_tracked address = do
    count ← statement (λ db. (ok (count_address address db.tracked), db))
    pure (ltb 0 count)

  unfoldable pub get_all_tracked_addresses : Exec F S (List String)
  get_all_tracked_addresses = do
    rows ← statement (λ db. (ok db.tracked, db))
    pure (filter_map (λ (r : AddressRow). r.address) rows)
