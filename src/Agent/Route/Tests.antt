-- ===== src/Agent/Route/Tests.antt =====
-- Endpoints of concrete routes.
use agents_kong.Prelude.{◌≡◌, ◌↔◌, refl, [], ◌∷◌, Any}
use agents_kong.Prelude.Int.{pos, int32}
use agents_kong.Agent.Route.{EndpointDefinition, KongRoute, get_endpoints}
use agents_kong.Agent.Route.Membership.{IsListed, get_endpoints_iff}

abbrev route : KongRoute
route = record {
  hosts = [];
  paths = "/a" ∷ "/b" ∷ [];
  protocols = "http" ∷ "https" ∷ "grpc" ∷ [];
  default_host = "proxy";
  base_path = "/base";
  http_port = pos 80;
  https_port = pos 0;
}

abbrev endpoint : EndpointDefinition
endpoint = record { host = "proxy"; port = pos 80; protocol = "http"; base_path = "/base/b" }

run : get_endpoints route ≡ record endpoint { base_path = "/base/a" } ∷ endpoint ∷ []
unfolding get_endpoints int32
run = refl

get_endpoints_iff_example :
    Any (λ x. x ≡ endpoint) (get_endpoints route)
    ↔ IsListed route ("proxy" ∷ []) "/base" route.paths endpoint
get_endpoints_iff_example = get_endpoints_iff route endpoint
