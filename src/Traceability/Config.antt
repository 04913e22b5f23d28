-- ===== src/Traceability/Config.antt =====
-- pkg/traceability/config/config.go: where the agent listens for logs, and its configuration.
pub mod Validity
mod Tests
use agents_kong.Prelude.{String, not, Option, none, some, ◌==◌, if◌then◌else◌, List, [], ◌∷◌}
use agents_kong.Prelude.Text.{◌<>◌, has_prefix}
use agents_kong.Prelude.Go.{ret}
use agents_kong.Prelude.Exec.{Exec}
use agents_kong.Prelude.Int.{ℤ, pos, is_zero}

pub record KongLogsHttpConfig : Type 0 where
  pub path : String
  pub port : ℤ

pub record KongLogsConfig : Type 0 where
  pub http : KongLogsHttpConfig

pub record KongGatewayConfig : Type 0 where
  pub logs : KongLogsConfig

abbrev pub path_err : String
path_err = "a path for the http server to listen on is required"

abbrev pub port_err : String
port_err = "a port for the http server to listen on is required"

unfoldable pub validate_cfg : KongGatewayConfig → Option String
validate_cfg c =
    if c.logs.http.path == ""
    then some path_err
    else if is_zero c.logs.http.port
    then some port_err
    else none

-- StringPropertyValue and IntPropertyValue of the command's properties
pub record Props : Type 0 where
  pub string_property_value : String → String
  pub int_property_value : String → ℤ

abbrev pub cfg_kong_http_logs_path : String
cfg_kong_http_logs_path = "kong.logs.http.path"

abbrev pub cfg_kong_http_logs_port : String
cfg_kong_http_logs_port = "kong.logs.http.port"

-- A value registered for a property when none is given.
pub data Default : Type 0 where
  string : String → Default
  int : ℤ → Default

-- The registrations, in order.
unfoldable pub add_kong_properties : List (String × Default)
add_kong_properties =
    (cfg_kong_http_logs_path, string "/requestlogs")
    ∷ (cfg_kong_http_logs_port, int (pos 9000))
    ∷ []

abbrev pub rooted : String → String
rooted path = if not (has_prefix path "/") then "/" <> path else path

unfoldable pub parse_properties : Props → KongGatewayConfig
parse_properties props = record {
  logs = record {
    http = record {
      path = rooted (props.string_property_value cfg_kong_http_logs_path);
      port = props.int_property_value cfg_kong_http_logs_port;
    };
  };
}

pub record AgentConfig (Central : Type 0) : Type 0 where
  pub central_cfg : Central
  pub kong_gateway_cfg : KongGatewayConfig

-- The package's variable `agentConfig`, which is nil before it is set, is the state.
unfoldable pub set_agent_config :
    {Central : Type 0}
    → Option (AgentConfig Central)
    → Exec (Option (AgentConfig Central)) (Unit {0})
set_agent_config cfg s = (ret tt, cfg)

unfoldable pub get_agent_config :
    {Central : Type 0} → Exec (Option (AgentConfig Central)) (Option (AgentConfig Central))
get_agent_config s = (ret s, s)
