-- ===== src/Blockchain/Client/Node.antt =====
-- The node that the polling and the workers of src/blockchain see: the calls of
-- src/blockchain/client.rs, whose errors they log and pass over. `rpc n` is the RPC library during
-- the n-th call.
use chain_data_service.Base.{ℕ, String, Bool, Option, none, some, Result, ok, err, ℤ}
use chain_data_service.Blockchain.Extract.{Json}
use chain_data_service.Blockchain.Services.{Services}
use chain_data_service.Blockchain.Client.{
  ClientError, SolanaClient, Rpc, Backon, get_transaction, get_signatures_for_address,
}

unfoldable pub or_log : {A : Type 0} → Result A ClientError → Option A
or_log (ok a) = some a
or_log (err e) = none

module _ {F : Type 0} (json : Json) (to_sol : ℤ → F) (parse_f64 : String → Option F)
    (system_program_id token_program_id : String) (backon : Backon) (rpc : ℕ → Rpc json.Parsed)
    (check : ℕ → Bool) where
  unfoldable pub serve : SolanaClient → Services F
  unfolding or_log get_transaction get_signatures_for_address
  serve client = record {
    json = json;
    to_sol = to_sol;
    parse_f64 = parse_f64;
    system_program_id = system_program_id;
    token_program_id = token_program_id;
    get_transaction = λ n signature. or_log (get_transaction backon (rpc n) check client signature);
    get_signatures = λ n address before limit.
        or_log
          (get_signatures_for_address backon (rpc n) check client address before none (some limit));
  }
