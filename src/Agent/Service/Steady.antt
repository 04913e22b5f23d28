-- ===== src/Agent/Service/Steady.antt =====
-- A service: what was processed once has nothing to do when it is processed again.
use agents_kong.Prelude.{String, ◌≡◌, Bool, Option, none, some, List, [], ◌∷◌}
use agents_kong.Prelude.Dict.{Dict}
use agents_kong.Prelude.Go.{Result, ok, err, Ret, deref}
use agents_kong.Prelude.Exec.{Exec, pure, load, ◌>>=◌}
use agents_kong.Common.{Context}
use agents_kong.Config.{ProxyConfig}
use agents_kong.Kong.Klib.{Plugin, Route, Service}
use agents_kong.Kong.AuthPlugins.{Json}
use agents_kong.Kong.Spec.{Spec}
use agents_kong.Subscription.Sdk.{Names}
use agents_kong.Agent.Sdk.{Platform}
use agents_kong.Agent.Publish.{CacheApi}
use agents_kong.Agent.Publish.Change.{Grows, LawfulCache}
use agents_kong.Agent.Service.Settling.{
  Settles, pure-Settles, lift-Settles, bind-Settles, if-Settles,
}
use agents_kong.Agent.Service.{
  Outside, State, process_kong_api, prepare_endpoints, prepare_plugins, prepare_named,
  spec_preparation, routes_loop, with_processor, with_spec, with_routes,
  process_single_kong_service,
}
use agents_kong.Agent.Service.Rerun.{still-Settles, process_and_publish-Settles}

-- The gateway answers the same at any time, and listing does not change it.
pub record StandsStill (platform : Platform) (outside : Outside platform) : Type 0 where
  pub services : Context → Ret (Result (List Service))
  pub routes : Context → String → Ret (Result (List Route))
  pub specs : Context → Service → Ret (Spec × Bool)
  pub plugins : Context → Ret (Result (List Plugin))
  pub services_still :
      (ctx : Context) (w : outside.World) → outside.list_services ctx w ≡ (services ctx, w)
  pub routes_still :
      (ctx : Context) (id : String) (w : outside.World)
      → outside.list_routes_for_service ctx id w ≡ (routes ctx id, w)
  pub specs_still :
      (ctx : Context) (service : Service) (w : outside.World)
      → outside.get_spec_for_service ctx service w ≡ (specs ctx service, w)
  pub plugins_still :
      (ctx : Context) (w : outside.World) → outside.plugins_list_all ctx w ≡ (plugins ctx, w)

module _ (platform : Platform) (json : Json) (names : Names) (cache : CacheApi)
    (outside : Outside platform) (laws : LawfulCache cache)
    (still : StandsStill platform outside) where
  abbrev pub Agent : Type 0
  Agent = State platform json names cache outside

  abbrev pub Below : Agent → Agent → Type 0
  Below s t = Grows cache s.content t.content

  pub Below-refl : (s : Agent) → Below s s
  Below-refl s key h = h

  pub Below-trans : (s t u : Agent) → Below s t → Below t u → Below s u
  Below-trans s t u f g key h = g key (f key h)

  abbrev pub Once : {A : Type 0} → Exec Agent A → Type 0
  Once = Settles Below Below-refl Below-trans

  pure-Once : {A : Type 0} (a : A) → Once (pure a)
  pure-Once = pure-Settles Below Below-refl Below-trans

  bind-Once :
      {A B : Type 0} (m : Exec Agent A) (f : A → Exec Agent B)
      → Once m
      → ((a : A) → Once (f a))
      → Once (m >>= f)
  bind-Once = bind-Settles Below Below-refl Below-trans

  load-Once : {A : Type 0} (p : Option A) → Once (load p)
  load-Once p = lift-Settles Below Below-refl Below-trans (deref p)

  module _ (proxy : ProxyConfig)
      (visit : Context → Service → Route → Dict (Option Plugin) → Dict (Option Plugin)) where
    module _ (ctx : Context) (route : Route) (service : Service)
        (spec : platform.SpecProcessor) where
      plugins-Settles :
          (plugins : Result (Dict (Option Plugin)))
          → Once (
              prepare_plugins platform json names cache outside proxy visit ctx route service spec
                plugins)
      unfolding prepare_plugins prepare_endpoints process_kong_api
      plugins-Settles (err e) = pure-Once spec
      plugins-Settles (ok plugins) =
          if-Settles Below Below-refl Below-trans _ _ _ (pure-Once spec) (
            process_and_publish-Settles platform json names cache outside laws ctx route service _
              _)

      named-Settles :
          (route_id service_id : String) (name : Option String)
          → Once (
              prepare_named platform json names cache outside proxy visit ctx route service spec
                route_id service_id name)
      unfolding prepare_named
      named-Settles route_id service_id none = pure-Once spec
      named-Settles route_id service_id (some name) =
          bind-Once _ _
            (still-Settles platform json names cache outside laws _ _ (still.plugins_still ctx))
            (λ listed. bind-Once _ _ (lift-Settles Below Below-refl Below-trans _) plugins-Settles)

      route-Settles :
          Once
            (spec_preparation platform json names cache outside proxy visit ctx service route spec)
      unfolding spec_preparation
      route-Settles = bind-Once _ _ (load-Once route.id) (λ route_id.
          bind-Once _ _ (load-Once service.id)
            (λ service_id. named-Settles route_id service_id route.name))

    module _ (ctx : Context) (service : Service) where
      routes-Settles :
          (routes : List Route) (spec : platform.SpecProcessor)
          → Once (routes_loop platform json names cache outside proxy visit ctx service routes spec)
      unfolding routes_loop
      routes-Settles [] spec = pure-Once tt
      routes-Settles (route ∷ rest) spec =
          bind-Once _ _ (route-Settles ctx route service spec) (routes-Settles rest)

      processor-Settles :
          (routes : List Route) (processor : Result (Option platform.SpecProcessor))
          → Once (
              with_processor platform json names cache outside proxy visit ctx service routes
                processor)
      unfolding with_processor
      processor-Settles routes (err e) = pure-Once (some e)
      processor-Settles routes (ok none) = pure-Once _
      processor-Settles routes (ok (some spec)) =
          bind-Once _ _ (routes-Settles routes spec) (λ done. pure-Once none)

      spec-Settles :
          (routes : List Route) (answer : Spec × Bool)
          → Once (with_spec platform json names cache outside proxy visit ctx service routes answer)
      unfolding with_spec
      spec-Settles routes (err e, u) = pure-Once (some e)
      spec-Settles routes (ok none, u) = pure-Once none
      spec-Settles routes (ok (some content), u) = processor-Settles routes _

      listed-Settles :
          (routes : Result (List Route))
          → Once (with_routes platform json names cache outside proxy visit ctx service routes)
      unfolding with_routes
      listed-Settles (err e) = pure-Once (some e)
      listed-Settles (ok routes) =
          bind-Once _ _
            (still-Settles platform json names cache outside laws _ _
              (still.specs_still ctx service))
            (spec-Settles routes)

      pub single-Settles :
          Once
            (process_single_kong_service platform json names cache outside proxy visit ctx service)
      unfolding process_single_kong_service
      single-Settles = bind-Once _ _ (load-Once service.name) (λ name.
          bind-Once _ _ (load-Once service.id) (λ id.
            bind-Once _ _
              (still-Settles platform json names cache outside laws _ _ (still.routes_still ctx id))
              listed-Settles))
