-- ===== src/Config/Tests.antt =====
-- A run of `from_env` with an empty environment, and one with a malformed port.
use chain_data_service.Base.{
  String, Option, none, some, ◌≡◌, refl, str_eq, if◌then◌else◌, from_str_unsigned,
}
use chain_data_service.Config.{from_env}

from_env_defaults : (from_env (λ _. none)).server_port ≡ 8080
unfolding from_env from_str_unsigned
from_env_defaults = refl

abbrev odd_port : String → Option String
odd_port name = if str_eq name "SERVER_PORT" then some "80800" else none

from_env_malformed : (from_env odd_port).server_port ≡ 8080
unfolding from_env from_str_unsigned
from_env_malformed = refl
