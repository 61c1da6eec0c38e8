-- ===== src/Config/Reads.antt =====
-- What src/config.rs reads from an environment, told variable by variable.
use mathlib.Core.Option.{get_or}
use chain_data_service.Base.{
  ℕ, ◌≤◌, String, Option, none, some, ◌≡◌, ◌⊎◌, inl, inr, pos, arith, codes, display, refl,
  from_str_unsigned, from_str_unsigned-display,
}
use chain_data_service.Config.{
  Config, u16_max, u32_max, u64_max, parse_or, var_or, var_ok, from_env,
}

module _ (var : String → Option String) where
  -- The text of the variable, or the default where it is not set.
  abbrev pub IsText : String → String → String → Type 0
  IsText name default value = ((var name ≡ none) × (value ≡ default)) ⊎ (var name ≡ some value)

  -- The variable is set to the decimal digits of a number of the type.
  abbrev pub IsGiven : String → ℕ → ℕ → Type 0
  IsGiven name most n =
      (text : String) × (var name ≡ some text) × (codes text ≡ display (pos n)) × (n ≤ most)

  -- It is not set, or to a text that is no number of the type.
  abbrev pub IsMissing : String → ℕ → Type 0
  IsMissing name most =
      (var name ≡ none)
      ⊎ ((text : String) × (var name ≡ some text) × (from_str_unsigned most text ≡ none))

  -- The number of the variable, or the default.
  abbrev pub IsNumber : String → ℕ → ℕ → ℕ → Type 0
  IsNumber name most default n = (IsMissing name most × (n ≡ default)) ⊎ IsGiven name most n

  -- The number of the variable, or none.
  abbrev pub IsOptional : String → ℕ → Option ℕ → Type 0
  IsOptional name most value =
      (IsMissing name most × (value ≡ none)) ⊎ ((n : ℕ) × IsGiven name most n × (value ≡ some n))

  pub record Describes (c : Config) : Type 0 where
    pub database_url : IsText "DATABASE_URL" "sqlite:data.db" c.database_url
    pub server_host : IsText "SERVER_HOST" "127.0.0.1" c.server_host
    pub server_port : IsNumber "SERVER_PORT" u16_max 8080 c.server_port
    pub solana_rpc_url :
        IsText "SOLANA_RPC_URL" "https://api.mainnet-beta.solana.com" c.solana_rpc_url
    pub poll_interval : IsNumber "POLL_INTERVAL" u64_max 10 c.poll_interval
    pub cache_ttl : IsNumber "CACHE_TTL" u64_max 60 c.cache_ttl
    pub cache_max_capacity : IsNumber "CACHE_MAX_CAPACITY" u64_max 1000 c.cache_max_capacity
    pub solana_commitment_level :
        IsText "SOLANA_COMMITMENT_LEVEL" "confirmed" c.solana_commitment_level
    pub rpc_timeout_secs : IsNumber "RPC_TIMEOUT_SECS" u64_max 30 c.rpc_timeout_secs
    pub polling_interval_secs : IsNumber "POLLING_INTERVAL_SECS" u64_max 10 c.polling_interval_secs
    pub rpc_rate_limit : IsOptional "RPC_RATE_LIMIT" u32_max c.rpc_rate_limit

  text-eq :
      (name default value : String) → IsText name default value → get_or (var name) default ≡ value
  text-eq name default value (inl (e, d)) = ground (arith, e, d)
  text-eq name default value (inr e) = ground (arith, e)

  -- A default that is a text, which is read back as the default number.
  parse-eq :
      (name text : String) (most default n : ℕ)
      → from_str_unsigned most text ≡ some default
      → IsNumber name most default n
      → parse_or most default (get_or (var name) text) ≡ n
  unfolding parse_or
  parse-eq name text most default n f (inl (inl e, d)) = ground (arith, e, d, f)
  parse-eq name text most default n f (inl (inr (v, e, bad), d)) = ground (arith, e, d, bad)
  parse-eq name text most default n f (inr (v, e, digits, fits)) =
      ground (arith, e, from_str_unsigned-display most v n fits digits)

  var_or-eq :
      (name : String) (most default n : ℕ)
      → IsNumber name most default n
      → var_or var name most default ≡ n
  unfolding var_or parse_or
  var_or-eq name most default n (inl (inl e, d)) = ground (arith, e, d)
  var_or-eq name most default n (inl (inr (v, e, bad), d)) = ground (arith, e, d, bad)
  var_or-eq name most default n (inr (v, e, digits, fits)) =
      ground (arith, e, from_str_unsigned-display most v n fits digits)

  var_ok-eq :
      (name : String) (most : ℕ) (value : Option ℕ)
      → IsOptional name most value
      → var_ok var name most ≡ value
  unfolding var_ok
  var_ok-eq name most value (inl (inl e, d)) = ground (arith, e, d)
  var_ok-eq name most value (inl (inr (v, e, bad), d)) = ground (arith, e, d, bad)
  var_ok-eq name most value (inr (n, (v, e, digits, fits), d)) =
      ground (arith, e, d, from_str_unsigned-display most v n fits digits)

  -- Every field of the configuration is read from its own variable: printed to the environment, a
  -- configuration whose numbers are of their types is read back, where a variable that is not set, or
  -- whose text is no number of the type, stands for the default.
  pub from_env-reads : (c : Config) → Describes c → from_env var ≡ c
  unfolding from_env from_str_unsigned
  from_env-reads c d =
      let host = text-eq _ _ _ d.server_host in
      let url = text-eq _ _ _ d.database_url in
      let rpc = text-eq _ _ _ d.solana_rpc_url in
      let level = text-eq _ _ _ d.solana_commitment_level in
      let port = parse-eq _ "8080" _ _ _ refl d.server_port in
      let interval = parse-eq _ "10" _ _ _ refl d.poll_interval in
      let ttl = parse-eq _ "60" _ _ _ refl d.cache_ttl in
      let capacity = parse-eq _ "1000" _ _ _ refl d.cache_max_capacity in
      let timeout = var_or-eq _ _ _ _ d.rpc_timeout_secs in
      let polling = var_or-eq _ _ _ _ d.polling_interval_secs in
      let rate = var_ok-eq _ _ _ d.rpc_rate_limit in
      rw (host, url, rpc, level, port, interval, ttl, capacity, timeout, polling, rate) refl
