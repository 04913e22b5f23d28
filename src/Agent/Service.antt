-- ===== src/Agent/Service.antt =====
-- pkg/discovery/agent/agent.go: processSingleKongService, which works on the routes of one service.
pub mod Settling
pub mod Rerun
pub mod Steady
pub mod Orders
use agents_kong.Prelude.{String, Bool, Option, none, some, List, [], ◌∷◌, is_empty, if◌then◌else◌}
use agents_kong.Prelude.Dict.{Dict}
use agents_kong.Prelude.Go.{Result, ok, err, Ret, ret}
use agents_kong.Prelude.Exec.{Call, Exec, pure, lift, load, ◌>>=◌}
use agents_kong.Common.{Context}
use agents_kong.Config.{ProxyConfig}
use agents_kong.Kong.Klib.{Plugin, Route, Service}
use agents_kong.Kong.AuthPlugins.{Json}
use agents_kong.Kong.Plugins.{get_effective_plugins}
use agents_kong.Kong.Spec.{Spec}
use agents_kong.Subscription.Sdk.{Names}
use agents_kong.Agent.Route.{EndpointDefinition, get_endpoints}
use agents_kong.Agent.Sdk.{KongApi, Platform}
use agents_kong.Agent.Publish.{CacheApi, new_kong_api, process_api}

-- The methods of `kongClient` for discovery, over the state of what is outside the agent, with the
-- lister of the plugins and PublishAPI.
pub record Outside (platform : Platform) : Type 1 where
  pub World : Type 0
  pub list_services : Context → Exec World (Result (List Service))
  pub list_routes_for_service : Context → String → Exec World (Result (List Route))
  pub get_spec_for_service : Context → Service → Exec World (Spec × Bool)
  pub plugins_list_all : Context → Exec World (Result (List Plugin))
  pub publish_api : platform.ServiceBody → Call World (Unit {0})

module _ (proxy : ProxyConfig) where
  -- Its test for a nil route is left out: the caller has followed the pointer.
  unfoldable pub process_kong_route : Route → List EndpointDefinition
  process_kong_route route = get_endpoints (record {
    hosts = route.hosts;
    paths = route.paths;
    protocols = route.protocols;
    default_host = proxy.host;
    http_port = proxy.ports.http.value;
    https_port = proxy.ports.https.value;
    base_path = proxy.base_path;
  })

module _ (platform : Platform) (json : Json) (names : Names) (cache : CacheApi)
    (outside : Outside platform) where
  -- the agent's cache and what is outside of the agent
  pub record State : Type 0 where
    pub world : outside.World
    pub content : cache.Content

  abbrev pub on_world : {A : Type 0} → Exec outside.World A → Exec State A
  on_world m s = let (r, w) = m s.world in (r, record s { world = w })

  abbrev pub on_cache : {A : Type 0} → Exec cache.Content A → Exec State A
  on_cache m s = let (r, c) = m s.content in (r, record s { content = c })

  unfoldable pub spec_type : Bool → String
  spec_type is_unstructured = if is_unstructured then platform.unstructured else ""

  -- what specPreparation does with the service body; the error of publishing is only logged
  unfoldable pub publish : Result (Option platform.ServiceBody) → Exec State (Unit {0})
  publish (err e) s = (ret tt, s)
  publish (ok none) s = (ret tt, s)
  publish (ok (some body)) s = (ret tt, record s { world = (outside.publish_api body s.world).1 })

  unfoldable pub publish_answer :
      Result (Option platform.ServiceBody) × platform.SpecProcessor
      → Exec State platform.SpecProcessor
  unfolding publish
  publish_answer (answer, spec) = do done ← publish answer; pure spec

  -- the part of processKongAPI in which the API is made, if that did not panic
  unfoldable pub process_made :
      Context
      → Route
      → Service
      → platform.SpecProcessor
      → Ret KongApi
      → Exec State (Result (Option platform.ServiceBody) × platform.SpecProcessor)
  process_made ctx route service spec made = do
    api ← lift made
    answer ← on_cache (process_api platform cache ctx route service api)
    pure (answer, spec)

  -- processKongAPI, with the processor that it leaves
  unfoldable pub process_kong_api :
      Context
      → Route
      → Service
      → platform.SpecProcessor
      → List EndpointDefinition
      → Dict (Option Plugin)
      → Exec State (Result (Option platform.ServiceBody) × platform.SpecProcessor)
  unfolding process_made
  process_kong_api ctx route service spec endpoints api_plugins =
      let (made, spec') =
        new_kong_api platform json names ctx route service endpoints api_plugins spec in
      process_made ctx route service spec' made

  -- `visit ctx service route` is the order in which `range` visits the map of the route's plugins: the
  -- map is ranged over once each time that the route is worked on.
  module _ (proxy : ProxyConfig)
      (visit : Context → Service → Route → Dict (Option Plugin) → Dict (Option Plugin)) where
    unfoldable pub prepare_endpoints :
        Context
        → Route
        → Service
        → platform.SpecProcessor
        → Dict (Option Plugin)
        → List EndpointDefinition
        → Exec State platform.SpecProcessor
    unfolding process_kong_api publish_answer
    prepare_endpoints ctx route service spec api_plugins endpoints =
        if is_empty endpoints then pure spec else do
          answer ← process_kong_api ctx route service spec endpoints api_plugins
          publish_answer answer

    unfoldable pub prepare_plugins :
        Context
        → Route
        → Service
        → platform.SpecProcessor
        → Result (Dict (Option Plugin))
        → Exec State platform.SpecProcessor
    unfolding prepare_endpoints process_kong_route
    prepare_plugins ctx route service spec (err e) = pure spec
    prepare_plugins ctx route service spec (ok api_plugins) =
        prepare_endpoints ctx route service spec (visit ctx service route api_plugins)
          (process_kong_route proxy route)

    -- the part for a route with a name
    unfoldable pub prepare_named :
        Context
        → Route
        → Service
        → platform.SpecProcessor
        → String
        → String
        → Option String
        → Exec State platform.SpecProcessor
    unfolding prepare_plugins
    prepare_named ctx route service spec route_id service_id none = pure spec
    prepare_named ctx route service spec route_id service_id (some name) = do
      listed ← on_world (outside.plugins_list_all ctx)
      plugins ← lift (get_effective_plugins route_id service_id listed)
      prepare_plugins ctx route service spec plugins

    -- specPreparation, with the processor that it leaves
    unfoldable pub spec_preparation :
        Context → Service → Route → platform.SpecProcessor → Exec State platform.SpecProcessor
    unfolding prepare_named
    spec_preparation ctx service route spec = do
      route_id ← load route.id
      service_id ← load service.id
      prepare_named ctx route service spec route_id service_id route.name

    -- The routes are worked on one after the other, with one processor.
    unfoldable pub routes_loop :
        Context → Service → List Route → platform.SpecProcessor → Exec State (Unit {0})
    unfolding spec_preparation
    routes_loop ctx service [] spec = pure tt
    routes_loop ctx service (route ∷ rest) spec = do
      spec' ← spec_preparation ctx service route spec
      routes_loop ctx service rest spec'

    -- `none` is the nil error.
    unfoldable pub with_processor :
        Context
        → Service
        → List Route
        → Result (Option platform.SpecProcessor)
        → Exec State (Option String)
    unfolding routes_loop
    with_processor ctx service routes (err e) = pure (some e)
    with_processor ctx service routes (ok none) = pure (some "no spec processor")
    with_processor ctx service routes (ok (some spec)) = do
      done ← routes_loop ctx service routes spec
      pure none

    unfoldable pub with_spec :
        Context → Service → List Route → Spec × Bool → Exec State (Option String)
    unfolding with_processor spec_type
    with_spec ctx service routes (err e, is_unstructured) = pure (some e)
    with_spec ctx service routes (ok none, is_unstructured) = pure none
    with_spec ctx service routes (ok (some content), is_unstructured) =
        with_processor ctx service routes
          (platform.new_spec_processor content (spec_type is_unstructured))

    unfoldable pub with_routes :
        Context → Service → Result (List Route) → Exec State (Option String)
    unfolding with_spec
    with_routes ctx service (err e) = pure (some e)
    with_routes ctx service (ok routes) = do
      answer ← on_world (outside.get_spec_for_service ctx service)
      with_spec ctx service routes answer

    unfoldable pub process_single_kong_service : Context → Service → Exec State (Option String)
    unfolding with_routes
    process_single_kong_service ctx service = do
      name ← load service.name
      id ← load service.id
      listed ← on_world (outside.list_routes_for_service ctx id)
      with_routes ctx service listed
