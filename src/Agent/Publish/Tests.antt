-- ===== src/Agent/Publish/Tests.antt =====
-- A route with key authentication, and a service whose body cannot be built.
use agents_kong.Prelude.{String, Option, ◌≡◌, ◌↔◌, refl, true, none, some, [], ◌∷◌, Any}
use agents_kong.Prelude.Go.{ok, err, ret}
use agents_kong.Prelude.Dict.{insert, lookup}
use agents_kong.Common.{get_string_value_from_ctx, wks_prefix_name, context_workspace}
use agents_kong.Kong.Klib.{Plugin}
use agents_kong.Kong.AuthPlugins.{new_key_auth_plugin_config_from_map}
use agents_kong.Subscription.Samples.{sample_names, ctx}
use agents_kong.Agent.Sdk.{KongApi, api_key, header}
use agents_kong.Agent.Samples.{
  platform, json, cache, cache_laws, service, broken_service, pets_route, key_auth,
}
use agents_kong.Agent.Security.{process_spec_security, has_oas_type}
use agents_kong.Agent.Security.Definitions.{IsDefinitionOf}
use agents_kong.Agent.Publish.{initial_api, service_body_builder, new_kong_api, process_api}
use agents_kong.Agent.Publish.Access.{IsAskedFor, service_access_iff}
use agents_kong.Agent.Publish.Change.{process_api_repeat}

abbrev api : KongApi
api = record (initial_api platform "s1" "pets" "pets.local" "list-pets" "r1" [] []) {
  ard = "api-key";
  crds = "team-api-key" ∷ [];
  spec = "secured";
}

made :
    new_kong_api platform json sample_names ctx pets_route service []
      (("key-auth", some key_auth) ∷ ("acl", none) ∷ [])
      []
    ≡ (ret api, api_key "apikey" header ∷ [])
unfolding new_kong_api process_spec_security new_key_auth_plugin_config_from_map
    get_string_value_from_ctx wks_prefix_name
made = refl

abbrev broken : KongApi
broken = record api { name = "broken" }

-- The body of the service cannot be built.
fails : (process_api platform cache ctx pets_route broken_service broken []).0 ≡ ret (err "no body")
unfolding process_api insert lookup
fails = refl

process_api_repeat_example :
    process_api platform cache ctx pets_route broken_service broken
      (process_api platform cache ctx pets_route broken_service broken []).1
    ≡ (ret (ok none), (process_api platform cache ctx pets_route broken_service broken []).1)
process_api_repeat_example =
    process_api_repeat platform cache ctx pets_route broken_service broken cache_laws []
      (process_api platform cache ctx pets_route broken_service broken []).1 (λ key stored. stored)

service_access_iff_example :
    IsAskedFor "team-api-key" (service_body_builder platform api).access ↔ (
      (has_oas_type platform json [] ≡ true)
      × Any
          (λ (entry : String × Option Plugin).
            IsDefinitionOf sample_names
              (get_string_value_from_ctx ctx context_workspace)
              entry.0
              "team-api-key")
          (("key-auth", some key_auth) ∷ ("acl", none) ∷ []))
service_access_iff_example =
    service_access_iff platform json sample_names ctx pets_route service []
      (("key-auth", some key_auth) ∷ ("acl", none) ∷ []) [] (api_key "apikey" header ∷ []) api
      "team-api-key" made
