-- ===== src/Config.antt =====
-- src/config.rs. The environment, after `dotenv`, is the function `var`; a `Duration` is its
-- seconds.
mod Tests
pub mod Reads
use mathlib.Core.Option
use mathlib.Core.Option.{get_or}
use chain_data_service.Base.{ℕ, String, Option, none, some, from_str_unsigned}

abbrev pub u16_max : ℕ
u16_max = 65535

abbrev pub u32_max : ℕ
u32_max = 4294967295

abbrev pub u64_max : ℕ
u64_max = 18446744073709551615

pub record Config : Type 0 where
  pub database_url : String
  pub server_host : String
  pub server_port : ℕ
  pub solana_rpc_url : String
  pub poll_interval : ℕ
  pub cache_ttl : ℕ
  pub cache_max_capacity : ℕ
  pub solana_commitment_level : String
  pub rpc_timeout_secs : ℕ
  pub polling_interval_secs : ℕ
  pub rpc_rate_limit : Option ℕ

-- `parse().unwrap_or(default)` of a variable whose own default is a text.
unfoldable pub parse_or : ℕ → ℕ → String → ℕ
parse_or most default text = get_or (from_str_unsigned most text) default

-- `map(|v| v.parse().unwrap_or(default)).unwrap_or(default)`
unfoldable pub var_or : (String → Option String) → String → ℕ → ℕ → ℕ
unfolding parse_or
var_or var name most default = elim (var name) [ none ↦ default | some v ↦ parse_or most default v ]

-- `map(|v| v.parse().ok()).unwrap_or(None)`
unfoldable pub var_ok : (String → Option String) → String → ℕ → Option ℕ
var_ok var name most = elim (var name) [ none ↦ none | some v ↦ from_str_unsigned most v ]

unfoldable pub from_env : (String → Option String) → Config
unfolding parse_or var_or var_ok
from_env var = record {
  database_url = get_or (var "DATABASE_URL") "sqlite:data.db";
  server_host = get_or (var "SERVER_HOST") "127.0.0.1";
  server_port = parse_or u16_max 8080 (get_or (var "SERVER_PORT") "8080");
  solana_rpc_url = get_or (var "SOLANA_RPC_URL") "https://api.mainnet-beta.solana.com";
  poll_interval = parse_or u64_max 10 (get_or (var "POLL_INTERVAL") "10");
  cache_ttl = parse_or u64_max 60 (get_or (var "CACHE_TTL") "60");
  cache_max_capacity = parse_or u64_max 1000 (get_or (var "CACHE_MAX_CAPACITY") "1000");
  solana_commitment_level = get_or (var "SOLANA_COMMITMENT_LEVEL") "confirmed";
  rpc_timeout_secs = var_or var "RPC_TIMEOUT_SECS" u64_max 30;
  polling_interval_secs = var_or var "POLLING_INTERVAL_SECS" u64_max 10;
  rpc_rate_limit = var_ok var "RPC_RATE_LIMIT" u32_max;
}
