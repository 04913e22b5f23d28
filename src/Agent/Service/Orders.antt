-- ===== src/Agent/Service/Orders.antt =====
-- The work on a service, where the plugins of its routes are visited in two orders.
use mathlib.Core.List.{Permᴰ}
use agents_kong.Prelude.{
  String, ◌≡◌, refl, sym, ap, ◌∙◌, inl, inr, Bool-cases, Bool, Option, none, some, List, [], ◌∷◌,
  is_empty,
}
use agents_kong.Prelude.Dict.{Dict}
use agents_kong.Prelude.Go.{Result, ok, err, Ret, ret, panic}
use agents_kong.Prelude.Exec.{pure, lift, load, continue, continue-ext, ◌>>=◌}
use agents_kong.Common.{Context}
use agents_kong.Config.{ProxyConfig}
use agents_kong.Kong.Klib.{Plugin, Route, Service}
use agents_kong.Kong.AuthPlugins.{Json}
use agents_kong.Kong.Plugins.{get_effective_plugins}
use agents_kong.Kong.Spec.{Spec}
use agents_kong.Subscription.Sdk.{Names}
use agents_kong.Agent.Route.{EndpointDefinition}
use agents_kong.Agent.Sdk.{KongApi, Platform}
use agents_kong.Agent.Publish.{CacheApi, new_kong_api}
use agents_kong.Agent.Security.Orders.{only_auth, HasOneAuth, only_auth-Perm, security_orders}
use agents_kong.Agent.Service.{
  Outside, State, on_world, process_made, process_kong_api, publish_answer, prepare_endpoints,
  prepare_plugins, prepare_named, spec_preparation, routes_loop, with_processor, with_spec,
  with_routes, process_single_kong_service,
}
use agents_kong.Agent.Service.Steady.{StandsStill}

-- An order in which range may visit a map has every entry of it, and once.
abbrev pub IsOrder :
    (Context → Service → Route → Dict (Option Plugin) → Dict (Option Plugin)) → Type 0
IsOrder visit =
    (ctx : Context) (service : Service) (route : Route) (d : Dict (Option Plugin))
    → Permᴰ d (visit ctx service route d)

module _ (platform : Platform) (json : Json) (names : Names) (cache : CacheApi)
    (outside : Outside platform) (still : StandsStill platform outside) where
  abbrev Agent : Type 0
  Agent = State platform json names cache outside

  -- No route has more than one effective authentication plugin.
  abbrev pub HaveOneAuth : Type 0
  HaveOneAuth =
      (ctx : Context) (route_id service_id : String) (listed : Result (List Plugin))
      (d : Dict (Option Plugin))
      → still.plugins ctx ≡ ret listed
      → get_effective_plugins route_id service_id listed ≡ ret (ok d)
      → HasOneAuth d

  api_orders :
      (ctx : Context) (route : Route) (service : Service) (endpoints : List EndpointDefinition)
      (d d' : Dict (Option Plugin)) (spec : platform.SpecProcessor)
      → only_auth d ≡ only_auth d'
      → new_kong_api platform json names ctx route service endpoints d spec
        ≡ new_kong_api platform json names ctx route service endpoints d' spec
  unfolding new_kong_api
  api_orders ctx route service endpoints d d' spec e =
      continue-ext (load service.id spec) _ _ (λ id s1.
        continue-ext (load service.name s1) _ _ (λ name s2.
          continue-ext (load service.host s2) _ _ (λ host s3.
            continue-ext (load route.name s3) _ _ (λ route_name s4.
              continue-ext (load route.id s4) _ _
                (λ route_id s5. security_orders platform json names ctx d d' _ s5 e)))))

  endpoints_orders :
      (ctx : Context) (route : Route) (service : Service) (spec : platform.SpecProcessor)
      (endpoints : List EndpointDefinition) (d d' : Dict (Option Plugin)) (s : Agent)
      → only_auth d ≡ only_auth d'
      → process_kong_api platform json names cache outside ctx route service spec endpoints d s
        ≡ process_kong_api platform json names cache outside ctx route service spec endpoints d' s
  unfolding process_kong_api
  endpoints_orders ctx route service spec endpoints d d' s e =
      ap
        (λ (made : Ret KongApi × platform.SpecProcessor).
          process_made platform json names cache outside ctx route service made.1 made.0 s)
        (api_orders ctx route service endpoints d d' spec e)

  module _ (proxy : ProxyConfig)
      (visit visit' : Context → Service → Route → Dict (Option Plugin) → Dict (Option Plugin))
      (is_order : IsOrder visit) (is_order' : IsOrder visit') (one : HaveOneAuth) (ctx : Context)
      (service : Service) where
    prepare_orders :
        (route : Route) (spec : platform.SpecProcessor) (endpoints : List EndpointDefinition)
        (d d' : Dict (Option Plugin)) (s : Agent)
        → only_auth d ≡ only_auth d'
        → prepare_endpoints platform json names cache outside proxy visit ctx route service spec d
            endpoints s
          ≡ prepare_endpoints platform json names cache outside proxy visit' ctx route service spec
              d' endpoints s
    unfolding prepare_endpoints
    prepare_orders route spec endpoints d d' s e = elim (Bool-cases (is_empty endpoints)) [
      | inl nothing ↦ rw nothing (refl)
      | inr found ↦ rw found (
          ap (λ out. continue out (publish_answer platform json names cache outside))
            (endpoints_orders ctx route service spec endpoints d d' s e))
    ]

    plugins_orders :
        (route : Route) (spec : platform.SpecProcessor) (d : Dict (Option Plugin)) (s : Agent)
        → HasOneAuth d
        → prepare_plugins platform json names cache outside proxy visit ctx route service spec
            (ok d)
            s
          ≡ prepare_plugins platform json names cache outside proxy visit' ctx route service spec
              (ok d)
              s
    unfolding prepare_plugins
    plugins_orders route spec d s h =
        prepare_orders route spec _ (visit ctx service route d) (visit' ctx service route d) s (
          sym (only_auth-Perm (is_order ctx service route d) h)
          ∙ only_auth-Perm (is_order' ctx service route d) h)

    effective_orders :
        (route : Route) (spec : platform.SpecProcessor) (s : Agent)
        (effective : Ret (Result (Dict (Option Plugin))))
        → ((d : Dict (Option Plugin)) → effective ≡ ret (ok d) → HasOneAuth d)
        → continue
            (effective, s)
            (prepare_plugins platform json names cache outside proxy visit ctx route service spec)
          ≡ continue
              (effective, s)
              (prepare_plugins platform json names cache outside proxy visit' ctx route service
                spec)
    unfolding prepare_plugins
    effective_orders route spec s panic h = refl
    effective_orders route spec s (ret (err e)) h = refl
    effective_orders route spec s (ret (ok d)) h = plugins_orders route spec d s (h d refl)

    named_orders :
        (route : Route) (spec : platform.SpecProcessor) (route_id service_id : String)
        (name : Option String) (s : Agent)
        → prepare_named platform json names cache outside proxy visit ctx route service spec
            route_id service_id name s
          ≡ prepare_named platform json names cache outside proxy visit' ctx route service spec
              route_id service_id name s
    unfolding prepare_named
    named_orders route spec route_id service_id none s = refl
    named_orders route spec route_id service_id (some name) s =
        rw (still.plugins_still ctx s.world) (go (still.plugins ctx) refl)
      where
        go :
            (answer : Ret (Result (List Plugin)))
            → still.plugins ctx ≡ answer
            → continue
                (answer, s)
                (λ listed.
                  lift (get_effective_plugins route_id service_id listed)
                  >>= prepare_plugins platform json names cache outside proxy visit ctx route
                      service spec)
              ≡ continue
                  (answer, s)
                  (λ listed.
                    lift (get_effective_plugins route_id service_id listed)
                    >>= prepare_plugins platform json names cache outside proxy visit' ctx route
                        service spec)
        go panic e = refl
        go (ret listed) e =
            effective_orders route spec s (get_effective_plugins route_id service_id listed)
              (λ d. one ctx route_id service_id listed d e)

    route_orders :
        (route : Route) (spec : platform.SpecProcessor) (s : Agent)
        → spec_preparation platform json names cache outside proxy visit ctx service route spec s
          ≡ spec_preparation platform json names cache outside proxy visit' ctx service route spec s
    unfolding spec_preparation
    route_orders route spec s = continue-ext (load route.id s) _ _ (λ route_id t.
        continue-ext (load service.id t) _ _
          (λ service_id u. named_orders route spec route_id service_id route.name u))

    routes_orders :
        (routes : List Route) (spec : platform.SpecProcessor) (s : Agent)
        → routes_loop platform json names cache outside proxy visit ctx service routes spec s
          ≡ routes_loop platform json names cache outside proxy visit' ctx service routes spec s
    unfolding routes_loop
    routes_orders [] spec s = refl
    routes_orders (route ∷ rest) spec s =
        ap
          (λ out.
            continue out
              (routes_loop platform json names cache outside proxy visit ctx service rest))
          (route_orders route spec s)
        ∙ continue-ext
            (spec_preparation platform json names cache outside proxy visit' ctx service route spec
              s)
            _ _ (routes_orders rest)

    processor_orders :
        (routes : List Route) (processor : Result (Option platform.SpecProcessor)) (s : Agent)
        → with_processor platform json names cache outside proxy visit ctx service routes processor
            s
          ≡ with_processor platform json names cache outside proxy visit' ctx service routes
              processor s
    unfolding with_processor
    processor_orders routes (err e) s = refl
    processor_orders routes (ok none) s = refl
    processor_orders routes (ok (some spec)) s =
        ap (λ out. continue out (λ done. pure none)) (routes_orders routes spec s)

    spec_orders :
        (routes : List Route) (answer : Spec × Bool) (s : Agent)
        → with_spec platform json names cache outside proxy visit ctx service routes answer s
          ≡ with_spec platform json names cache outside proxy visit' ctx service routes answer s
    unfolding with_spec
    spec_orders routes (err e, u) s = refl
    spec_orders routes (ok none, u) s = refl
    spec_orders routes (ok (some content), u) s = processor_orders routes _ s

    listed_orders :
        (routes : Result (List Route)) (s : Agent)
        → with_routes platform json names cache outside proxy visit ctx service routes s
          ≡ with_routes platform json names cache outside proxy visit' ctx service routes s
    unfolding with_routes
    listed_orders (err e) s = refl
    listed_orders (ok routes) s =
        continue-ext
          (on_world platform json names cache outside (outside.get_spec_for_service ctx service) s)
          _ _ (spec_orders routes)

    pub single_orders :
        (s : Agent)
        → process_single_kong_service platform json names cache outside proxy visit ctx service s
          ≡ process_single_kong_service platform json names cache outside proxy visit' ctx service s
    unfolding process_single_kong_service
    single_orders s = continue-ext (load service.name s) _ _ (λ name t.
        continue-ext (load service.id t) _ _ (λ id u.
          continue-ext
            (on_world platform json names cache outside (outside.list_routes_for_service ctx id) u)
            _ _ listed_orders))
