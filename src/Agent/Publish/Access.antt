-- ===== src/Agent/Publish/Access.antt =====
-- How a published service asks for access.
use agents_kong.Prelude.{
  String, ◌≡◌, refl, subst, ◌↔◌, Bool, true, false, Option, List, [], ◌∷◌, Any, is_empty,
  if◌then◌else◌,
}
use agents_kong.Prelude.Dict.{Dict}
use agents_kong.Prelude.Go.{ret}
use agents_kong.Prelude.Exec.{load-eq-ret}
use agents_kong.Common.{Context, context_workspace, get_string_value_from_ctx}
use agents_kong.Kong.Klib.{Plugin, Route, Service}
use agents_kong.Kong.AuthPlugins.{Json}
use agents_kong.Subscription.Sdk.{Names}
use agents_kong.Agent.Route.{EndpointDefinition}
use agents_kong.Agent.Sdk.{KongApi, Platform, AccessMode, request_definitions, auth_policy}
use agents_kong.Agent.Security.{has_oas_type}
use agents_kong.Agent.Security.Definitions.{
  known_definitions, process_spec_security-definitions, IsDefinitionOf, known_definitions_iff,
}
use agents_kong.Agent.Publish.{access_mode, initial_api, service_body_builder, new_kong_api}

-- The service asks for the definition.
abbrev pub IsAskedFor : String → AccessMode → Type 0
IsAskedFor d (request_definitions ard crds) = Any (λ x. x ≡ d) crds
IsAskedFor d (auth_policy policy) = ⊥

asked_iff :
    (passthrough d : String) (ka : KongApi)
    → IsAskedFor d (access_mode passthrough ka) ↔ Any (λ x. x ≡ d) ka.crds
unfolding access_mode
asked_iff passthrough d ka = go ka.crds
  where
    go :
        (crds : List String)
        → IsAskedFor d
            (if is_empty crds then auth_policy passthrough else request_definitions ka.ard crds)
          ↔ Any (λ x. x ≡ d) crds
    go [] = (λ h. h, λ h. h)
    go (c ∷ cs) = (λ h. h, λ h. h)

module _ (platform : Platform) (json : Json) (names : Names) where
  new_kong_api-definitions :
      (ctx : Context) (route : Route) (service : Service) (endpoints : List EndpointDefinition)
      (plugins : Dict (Option Plugin)) (spec spec' : platform.SpecProcessor) (api : KongApi)
      → new_kong_api platform json names ctx route service endpoints plugins spec ≡ (ret api, spec')
      → api.crds ≡ (
          if has_oas_type platform json spec
          then known_definitions names (get_string_value_from_ctx ctx context_workspace) plugins
          else [])
  unfolding new_kong_api initial_api
  new_kong_api-definitions ctx route service endpoints plugins spec spec' api e =
      let (id, _, with_id) = load-eq-ret service.id spec _ e in
      let (name, _, with_name) = load-eq-ret service.name spec _ with_id in
      let (host, _, with_host) = load-eq-ret service.host spec _ with_name in
      let (route_name, _, with_route) = load-eq-ret route.name spec _ with_host in
      let (route_id, _, made) = load-eq-ret route.id spec _ with_route in
      process_spec_security-definitions platform json names ctx plugins
        (initial_api platform id name host route_name route_id endpoints spec) api spec spec' made

  asked-definitions :
      (workspace d : String) (plugins : Dict (Option Plugin)) (is_oas : Bool) (crds : List String)
      → crds ≡ (if is_oas then known_definitions names workspace plugins else [])
      → Any (λ x. x ≡ d) crds
        ↔ ((is_oas ≡ true) × Any (λ entry. IsDefinitionOf names workspace entry.0 d) plugins)
  asked-definitions workspace d plugins true crds e =
      let known = known_definitions_iff names workspace plugins d in
      (λ found. (refl, known.0 (rw e at found)), λ (oas, h). rw e (known.1 h))
  asked-definitions workspace d plugins false crds e =
      (λ found. elim (subst (Any (λ x. x ≡ d)) e found) [ ], λ (oas, h). cc)

  -- Where an API is made of a route, its service asks for exactly the definitions of the
  -- authentication plugins that are effective on the route, with the prefix of the workspace, if the
  -- specification is OAS; for any other specification it asks for none.
  pub service_access_iff :
      (ctx : Context) (route : Route) (service : Service) (endpoints : List EndpointDefinition)
      (plugins : Dict (Option Plugin)) (spec spec' : platform.SpecProcessor) (api : KongApi)
      (d : String)
      → new_kong_api platform json names ctx route service endpoints plugins spec ≡ (ret api, spec')
      → IsAskedFor d (service_body_builder platform api).access ↔ (
          (has_oas_type platform json spec ≡ true)
          × Any
              (λ entry.
                IsDefinitionOf names (get_string_value_from_ctx ctx context_workspace) entry.0 d)
              plugins)
  unfolding service_body_builder
  service_access_iff ctx route service endpoints plugins spec spec' api d e =
      let asked = asked_iff platform.passthrough d api in
      let defined =
        asked-definitions _ d plugins (has_oas_type platform json spec) api.crds
          (new_kong_api-definitions ctx route service endpoints plugins spec spec' api e) in
      (λ h. defined.0 (asked.0 h), λ h. asked.1 (defined.1 h))
