-- ===== src/Witnesses/Started.antt =====
-- The theorems of Program and of the configuration, at a machine with an empty environment.
use chain_data_service.Base.{
  String, Option, none, some, ◌≡◌, ok, inl, inr, refl, arith, str_eq, if◌then◌else◌,
  from_str_unsigned, display,
}
use chain_data_service.Config.{Config, from_env}
use chain_data_service.Config.Reads.{Describes, from_env-reads}
use chain_data_service.Cache.Transaction
use chain_data_service.Db.Schema.{Schema}
use chain_data_service.Blockchain.System.{launch}
use chain_data_service.Program.{Machine, Server, app_state}
use chain_data_service.Witnesses.Process.{parse, var, pool}
use chain_data_service.Witnesses.Routed.{outside}

abbrev machine : Machine
machine = record {
  var = var;
  current_dir = "/srv";
  num_cpus = 4;
  now = 0;
  parse = parse;
  bind = λ a. ok tt;
}

abbrev server : Server outside
server = record { state = app_state outside machine pool; tasks = launch 4 4 0 }

-- The defaults.
abbrev config : Config
config = record {
  database_url = "sqlite:data.db";
  server_host = "127.0.0.1";
  server_port = 8080;
  solana_rpc_url = "https://api.mainnet-beta.solana.com";
  poll_interval = 10;
  cache_ttl = 60;
  cache_max_capacity = 1000;
  solana_commitment_level = "confirmed";
  rpc_timeout_secs = 30;
  polling_interval_secs = 10;
  rpc_rate_limit = none;
}

-- A port, a rate and a malformed time-out.
abbrev set : String → Option String
set name =
    if str_eq name "SERVER_PORT"
    then some "9000"
    else if str_eq name "RPC_RATE_LIMIT"
    then some "12"
    else if str_eq name "RPC_TIMEOUT_SECS"
    then some "soon"
    else none

abbrev set_config : Config
set_config = record config { server_port = 9000; rpc_rate_limit = some 12 }

set-Describes : Describes set set_config
unfolding from_str_unsigned display
set-Describes = record {
  database_url = inl (refl, refl);
  server_host = inl (refl, refl);
  server_port = inr ("9000", refl, refl, omega arith);
  solana_rpc_url = inl (refl, refl);
  poll_interval = inl (inl refl, refl);
  cache_ttl = inl (inl refl, refl);
  cache_max_capacity = inl (inl refl, refl);
  solana_commitment_level = inl (refl, refl);
  rpc_timeout_secs = inl (inr ("soon", refl, refl), refl);
  polling_interval_secs = inl (inl refl, refl);
  rpc_rate_limit = inr (12, ("12", refl, refl, omega arith), refl);
}

from_env-reads_example : from_env set ≡ set_config
from_env-reads_example = from_env-reads set set_config set-Describes
