-- ===== src/Agent/Publish.antt =====
-- pkg/discovery/agent/agent.go: what is published of a route, and the cache that detects changes.
pub mod Access
pub mod Change
mod Tests
use agents_kong.Prelude.{
  String, Bool, true, false, is_some, Option, none, some, List, [], ◌∷◌, ◌==◌, is_empty,
  if◌then◌else◌,
}
use agents_kong.Prelude.Dict.{Dict, insert}
use agents_kong.Prelude.Go.{Result, ok, err}
use agents_kong.Prelude.Exec.{Call, Exec, pure, load, ◌>>=◌}
use agents_kong.Common.{
  Context, context_workspace, default_workspace, get_string_value_from_ctx, attr_service_id,
  attr_route_id, attr_checksum, attr_workspace_name,
}
use agents_kong.Kong.Klib.{Plugin, Route, Service}
use agents_kong.Kong.AuthPlugins.{Json}
use agents_kong.Subscription.Sdk.{Names}
use agents_kong.Agent.Route.{EndpointDefinition}
use agents_kong.Agent.Sdk.{
  KongApi, Platform, AccessMode, request_definitions, auth_policy, ServiceBodyBuilder,
}
use agents_kong.Agent.Security.{process_spec_security}

-- The methods of the SDK's cache that are called, over the cache's content: an item or nil, or an
-- error, and the error of a write.
pub record CacheApi : Type 1 where
  pub Content : Type 0
  pub get : String → Call Content (Option KongApi)
  pub set : String → KongApi → Call Content (Unit {0})

unfoldable pub tags_loop : List String → Dict Bool → Dict Bool
tags_loop [] tags = tags
tags_loop (tag ∷ rest) tags = tags_loop rest (insert tag true tags)

-- how access is asked for: by the definitions, if there are any
unfoldable pub access_mode : String → KongApi → AccessMode
access_mode passthrough ka =
    if is_empty ka.crds then auth_policy passthrough else request_definitions ka.ard ka.crds

module _ (platform : Platform) where
  -- the calls on the builder of the service body
  unfoldable pub service_body_builder : KongApi → ServiceBodyBuilder
  unfolding access_mode tags_loop
  service_body_builder ka = record {
    api_name = ka.name;
    api_spec = ka.spec;
    api_update_severity = ka.api_update_severity;
    description = ka.description;
    documentation = ka.documentation;
    id = ka.id;
    image = ka.image;
    image_content_type = ka.image_content_type;
    resource_type = ka.resource_type;
    service_agent_details = ka.agent_details;
    service_attribute = ("GatewayType", "Kong API Gateway") ∷ [];
    stage = ka.stage;
    stage_display_name = ka.stage_name;
    stage_descriptor = "Route";
    state = platform.published_status;
    status = platform.published_status;
    tags = tags_loop ka.tags [];
    title = ka.name;
    url = ka.url;
    version = ka.version;
    service_endpoints = ka.endpoints;
    source_dataplane_type = platform.kong;
    access = access_mode platform.passthrough ka;
  }

  unfoldable pub build_service_body : KongApi → Result platform.ServiceBody
  unfolding service_body_builder
  build_service_body ka = platform.build (service_body_builder ka)

  unfoldable pub make_checksum : KongApi → String
  make_checksum val = platform.sha256 (platform.sprint val)

  -- the API before its security is looked at
  unfoldable pub initial_api :
      String
      → String
      → String
      → String
      → String
      → List EndpointDefinition
      → platform.SpecProcessor
      → KongApi
  initial_api id name host route_name route_id endpoints spec = record {
    spec = platform.get_spec_bytes spec;
    id = id;
    name = name;
    description = platform.get_description spec;
    version = platform.get_version spec;
    url = host;
    documentation = name;
    resource_type = platform.get_resource_type spec;
    endpoints = endpoints;
    image = "";
    image_content_type = "";
    crds = [];
    api_update_severity = "";
    agent_details = [];
    tags = [];
    stage = route_id;
    stage_name = route_name;
    ard = "";
  }

  module _ (json : Json) (names : Names) where
    unfoldable pub new_kong_api :
        Context
        → Route
        → Service
        → List EndpointDefinition
        → Dict (Option Plugin)
        → Exec platform.SpecProcessor KongApi
    unfolding initial_api
    new_kong_api ctx route service endpoints api_plugins = do
      id ← load service.id
      name ← load service.name
      host ← load service.host
      route_name ← load route.name
      route_id ← load route.id
      λ spec.
          process_spec_security platform json names ctx api_plugins
            (initial_api id name host route_name route_id endpoints spec) spec

  module _ (cache : CacheApi) where
    -- an item that is not nil was found
    abbrev pub item_found : Result (Option KongApi) → Bool
    item_found (err e) = false
    item_found (ok item) = is_some item

    unfoldable pub is_published : KongApi → cache.Content → (Bool × String) × cache.Content
    unfolding make_checksum
    is_published api c =
        let (item, c') = cache.get (make_checksum api) c in
        ((item_found item, make_checksum api), c')

    abbrev pub workspace_name : Context → String
    workspace_name ctx =
        let workspace = get_string_value_from_ctx ctx context_workspace in
        if workspace == "" then default_workspace else workspace

    abbrev pub agent_details : String → String → String → String → Dict String
    agent_details service_id route_id checksum workspace =
        (attr_service_id, service_id)
        ∷ (attr_route_id, route_id)
        ∷ (attr_checksum, checksum)
        ∷ (attr_workspace_name, workspace)
        ∷ []

    abbrev pub some_body : Result platform.ServiceBody → Result (Option platform.ServiceBody)
    some_body (err e) = err e
    some_body (ok body) = ok (some body)

    -- The part for an API that is not in the cache. The error of the write is only logged.
    unfoldable pub process_changed :
        Context
        → Route
        → Service
        → KongApi
        → String
        → Exec cache.Content (Result (Option platform.ServiceBody))
    unfolding build_service_body
    process_changed ctx route service api checksum c =
        let (written, c') = cache.set checksum api c in
        (do
          service_id ← load service.id
          route_id ← load route.id
          pure (
              some_body (
                build_service_body (record api {
                  agent_details = agent_details service_id route_id checksum (workspace_name ctx);
                }))))
          c'

    -- what processKongAPI does with the API that it has made
    unfoldable pub process_api :
        Context
        → Route
        → Service
        → KongApi
        → Exec cache.Content (Result (Option platform.ServiceBody))
    unfolding is_published process_changed
    process_api ctx route service api c =
        let ((published, checksum), c') = is_published api c in
        if published then pure (ok none) c' else process_changed ctx route service api checksum c'
