-- ===== src/Agent/Route.antt =====
-- pkg/discovery/agent/route.go: the endpoints of a route.
pub mod Endpoints
pub mod Membership
mod Tests
use agents_kong.Prelude.{String, not, ◌&&◌, List, [], ◌∷◌, ◌++◌, ◌==◌, is_empty, if◌then◌else◌}
use agents_kong.Prelude.Text.{◌<>◌}
use agents_kong.Prelude.Int.{ℤ, is_zero, int32}

abbrev pub http_scheme : String
http_scheme = "http"

abbrev pub https_scheme : String
https_scheme = "https"

-- apic.EndpointDefinition
pub record EndpointDefinition : Type 0 where
  pub host : String
  pub port : ℤ
  pub protocol : String
  pub base_path : String

-- The embedded `klib.Route` stands with the three lists that are read here.
pub record KongRoute : Type 0 where
  pub hosts : List String
  pub paths : List String
  pub protocols : List String
  pub default_host : String
  pub base_path : String
  pub http_port : ℤ
  pub https_port : ℤ

-- the base path is put in front of the path
unfoldable pub full_path : String → String → String
full_path base path = if base == "" then path else base <> path

module _ (r : KongRoute) where
  -- one round of the loop over the protocols
  unfoldable pub protocol_endpoints : String → String → String → List EndpointDefinition
  protocol_endpoints host path protocol =
      (if protocol == http_scheme && not (is_zero r.http_port)
        then record {
          host = host;
          port = int32 r.http_port;
          protocol = http_scheme;
          base_path = path;
        }
          ∷ []
        else [])
      ++ (if protocol == https_scheme && not (is_zero r.https_port)
          then record {
            host = host;
            port = int32 r.https_port;
            protocol = https_scheme;
            base_path = path;
          }
            ∷ []
          else [])

  unfoldable pub protocols_loop : String → String → List String → List EndpointDefinition
  protocols_loop host path [] = []
  protocols_loop host path (protocol ∷ rest) =
      protocol_endpoints host path protocol ++ protocols_loop host path rest

  unfoldable pub handle_protocols : String → String → List EndpointDefinition
  unfolding protocols_loop protocol_endpoints
  handle_protocols host path = protocols_loop host path r.protocols

  unfoldable pub paths_loop : String → String → List String → List EndpointDefinition
  unfolding full_path
  paths_loop host base [] = []
  paths_loop host base (path ∷ rest) =
      handle_protocols host (full_path base path) ++ paths_loop host base rest

  unfoldable pub handle_paths : String → String → List EndpointDefinition
  unfolding paths_loop
  handle_paths host base = paths_loop host base r.paths

  unfoldable pub hosts_loop : List String → List EndpointDefinition
  hosts_loop [] = []
  hosts_loop (host ∷ rest) = handle_paths host "" ++ hosts_loop rest

  unfoldable pub handle_hosts : List EndpointDefinition
  unfolding hosts_loop
  handle_hosts = hosts_loop r.hosts

  unfoldable pub get_endpoints : List EndpointDefinition
  unfolding handle_hosts handle_paths handle_protocols
  get_endpoints =
      let endpoints = handle_hosts in
      if is_empty endpoints then handle_paths r.default_host r.base_path else endpoints
