-- ===== src/Agent/Discovery.antt =====
-- pkg/discovery/agent/agent.go: the discovery of the services of all workspaces. The services and
-- the workspaces are worked on by goroutines: here those of the services run one after the other in
-- some order, and those of the workspaces in the order in which they are started.
pub mod Steady
mod Tests
use agents_kong.Prelude.{String, Bool, Option, none, some, List, [], ◌∷◌, ◌++◌, if◌then◌else◌}
use agents_kong.Prelude.Dict.{Dict, insert}
use agents_kong.Prelude.Go.{Result, ok, err}
use agents_kong.Prelude.Exec.{Exec, pure, load, ◌>>=◌}
use agents_kong.Common.{Context, text, background, with_value, context_workspace}
use agents_kong.Config.{ProxyConfig}
use agents_kong.Kong.Klib.{Plugin, Route, Service}
use agents_kong.Kong.AuthPlugins.{Json}
use agents_kong.Subscription.Sdk.{Names}
use agents_kong.Agent.Sdk.{Platform}
use agents_kong.Agent.Publish.{CacheApi}
use agents_kong.Agent.Service.{Outside, State, on_world, process_single_kong_service}

abbrev pub workspace_context : String → Context
workspace_context workspace = with_value background context_workspace (text workspace)

unfoldable pub tags_map_loop : List String → Dict String → Dict String
tags_map_loop [] filters = filters
tags_map_loop (tag ∷ rest) filters = tags_map_loop rest (insert tag tag filters)

unfoldable pub to_tags_map : Service → Dict String
unfolding tags_map_loop
to_tags_map service = tags_map_loop service.tags []

module _ (platform : Platform) (json : Json) (names : Names) (cache : CacheApi)
    (outside : Outside platform) where
  abbrev Agent : Type 0
  Agent = State platform json names cache outside

  -- `evaluate` is the agent's filter on the tags of a service.
  module _ (evaluate : Dict String → Bool) where
    -- A service that the filter passes over is named in the log.
    unfoldable pub service_step : Service → Exec Agent (List Service)
    unfolding to_tags_map
    service_step service =
        if evaluate (to_tags_map service)
        then pure (service ∷ [])
        else (do name ← load service.name; pure [])

    -- the services for which goroutines are started
    unfoldable pub services_loop : List Service → Exec Agent (List Service)
    unfolding service_step
    services_loop [] = pure []
    services_loop (service ∷ rest) = do
      started ← service_step service
      later ← services_loop rest
      pure (started ++ later)

  -- `visit` is the order of the range over the plugins of a route.
  module _ (proxy : ProxyConfig)
      (visit : Context → Service → Route → Dict (Option Plugin) → Dict (Option Plugin)) where
    -- The goroutines; an error is logged.
    unfoldable pub goroutines_loop : Context → List Service → Exec Agent (Unit {0})
    unfolding process_single_kong_service
    goroutines_loop ctx [] = pure tt
    goroutines_loop ctx (service ∷ rest) = do
      error ← process_single_kong_service platform json names cache outside proxy visit ctx service
      goroutines_loop ctx rest

    -- `order` is the order in which the goroutines of the services run.
    module _ (evaluate : Dict String → Bool) (order : List Service → List Service) where
      unfoldable pub process_kong_services_list : Context → List Service → Exec Agent (Unit {0})
      unfolding services_loop goroutines_loop
      process_kong_services_list ctx services = do
        started ← services_loop evaluate services
        goroutines_loop ctx (order started)

      -- the rest of the loop over the workspaces is run unless the listing failed
      unfoldable pub discover_listed :
          Context → Exec Agent (Option String) → Result (List Service) → Exec Agent (Option String)
      unfolding process_kong_services_list
      discover_listed ctx rest (err e) = pure (some e)
      discover_listed ctx rest (ok services) = do
        done ← process_kong_services_list ctx services
        rest

      unfoldable pub discover_apis : List String → Exec Agent (Option String)
      unfolding discover_listed
      discover_apis [] = pure none
      discover_apis (workspace ∷ rest) =
          let later = discover_apis rest in
          do
            listed ←
                on_world platform json names cache outside
                  (outside.list_services (workspace_context workspace))
            discover_listed (workspace_context workspace) later listed
