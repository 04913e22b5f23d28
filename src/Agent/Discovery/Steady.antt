-- ===== src/Agent/Discovery/Steady.antt =====
-- A second discovery of a gateway that has not changed.
use agents_kong.Prelude.{
  String, ◌≡◌, sym, ap, ◌∙◌, Bool, Option, none, some, List, [], ◌∷◌, ◌++◌, refl, Any, All,
  All-among,
}
use agents_kong.Prelude.Dict.{Dict}
use agents_kong.Prelude.Go.{Result, ok, err, ret, deref}
use agents_kong.Prelude.Exec.{continue-eq-ret, Exec, pure, load, continue, ◌>>=◌}
use agents_kong.Common.{Context}
use agents_kong.Config.{ProxyConfig}
use agents_kong.Kong.Klib.{Plugin, Route, Service}
use agents_kong.Kong.AuthPlugins.{Json}
use agents_kong.Subscription.Sdk.{Names}
use agents_kong.Agent.Sdk.{Platform}
use agents_kong.Agent.Publish.{CacheApi}
use agents_kong.Agent.Publish.Change.{Grows, LawfulCache}
use agents_kong.Agent.Service.Settling.{
  Settles, pure-Settles, lift-Settles, bind-Settles, if-Settles, Quiets, bind-Quiets,
}
use agents_kong.Agent.Service.{Outside, State, process_single_kong_service}
use agents_kong.Agent.Discovery.{
  service_step, services_loop, goroutines_loop, process_kong_services_list, discover_listed,
  discover_apis, workspace_context,
}
use agents_kong.Agent.Service.Rerun.{still-Settles}
use agents_kong.Agent.Service.Steady.{StandsStill, single-Settles}
use agents_kong.Agent.Service.Orders.{IsOrder, HaveOneAuth, single_orders}

module _ (platform : Platform) (json : Json) (names : Names) (cache : CacheApi)
    (outside : Outside platform) (laws : LawfulCache cache)
    (still : StandsStill platform outside) where
  abbrev Agent : Type 0
  Agent = State platform json names cache outside

  abbrev Below : Agent → Agent → Type 0
  Below s t = Grows cache s.content t.content

  Below-refl : (s : Agent) → Below s s
  Below-refl s key h = h

  Below-trans : (s t u : Agent) → Below s t → Below t u → Below s u
  Below-trans s t u f g key h = g key (f key h)

  abbrev Once : {A : Type 0} → Exec Agent A → Type 0
  Once = Settles Below Below-refl Below-trans

  pure-Once : {A : Type 0} (a : A) → Once (pure a)
  pure-Once = pure-Settles Below Below-refl Below-trans

  bind-Once :
      {A B : Type 0} (m : Exec Agent A) (f : A → Exec Agent B)
      → Once m
      → ((a : A) → Once (f a))
      → Once (m >>= f)
  bind-Once = bind-Settles Below Below-refl Below-trans

  load-Once : {A : Type 0} (p : Option A) → Once (load p)
  load-Once p = lift-Settles Below Below-refl Below-trans (deref p)

  module _ (evaluate : Dict String → Bool) where
    step-Settles :
        (service : Service) → Once (service_step platform json names cache outside evaluate service)
    unfolding service_step
    step-Settles service =
        if-Settles Below Below-refl Below-trans _ _ _ (pure-Once (service ∷ []))
          (bind-Once _ _ (load-Once service.name) (λ name. pure-Once []))

    started-Settles :
        (services : List Service)
        → Once (services_loop platform json names cache outside evaluate services)
    unfolding services_loop
    started-Settles [] = pure-Once []
    started-Settles (service ∷ rest) =
        bind-Once _ _ (step-Settles service)
          (λ started. bind-Once _ _ (started-Settles rest) (λ later. pure-Once (started ++ later)))

  module _ (proxy : ProxyConfig)
      (visit visit' : Context → Service → Route → Dict (Option Plugin) → Dict (Option Plugin))
      (is_order : IsOrder visit) (is_order' : IsOrder visit')
      (one : HaveOneAuth platform json names cache outside still) where
    -- the goroutine of the service has nothing to do in the state, nor in a later one
    abbrev IsIdle : Context → Agent → Service → Type 0
    IsIdle ctx s service =
        (t : Agent)
        → Below s t
        → (e : Option String) × (process_single_kong_service platform json names cache outside proxy
              visit' ctx service t
            ≡ (ret e, t))

    goroutines-IsIdle :
        (ctx : Context) (services : List Service) (s s' : Agent) (u : Unit {0})
        → goroutines_loop platform json names cache outside proxy visit ctx services s ≡ (ret u, s')
        → Below s s' × All (IsIdle ctx s') services
    unfolding goroutines_loop
    goroutines-IsIdle ctx [] s s' u e = ((pure-Once tt s s' u e).0, tt)
    goroutines-IsIdle ctx (service ∷ rest) s s' u e =
        let (error, v, first, second) =
          continue-eq-ret
            (process_single_kong_service platform json names cache outside proxy visit ctx service
              s)
            _ e in
        let (below, again) =
          single-Settles platform json names cache outside laws still proxy visit ctx service s v
            error first in
        let (later, idle) = goroutines-IsIdle ctx rest v s' u second in
        (
          Below-trans s v s' below later,
          (
            λ t after. (
              error,
              sym (
                    single_orders platform json names cache outside still proxy visit visit'
                      is_order is_order' one ctx service t)
                  ∙ again t (Below-trans v s' t later after),
            ),
            idle,
          ),
        )

    idle_loop :
        (ctx : Context) (services : List Service) (s t : Agent)
        → Below s t
        → All (IsIdle ctx s) services
        → goroutines_loop platform json names cache outside proxy visit' ctx services t
          ≡ (ret tt, t)
    unfolding goroutines_loop
    idle_loop ctx [] s t later idle = refl
    idle_loop ctx (service ∷ rest) s t later (here, idle) =
        let (error, e) = here t later in
        ap
          (λ out. continue out (λ (done : Option String).
            goroutines_loop platform json names cache outside proxy visit' ctx rest))
          e
        ∙ idle_loop ctx rest s t later idle

    module _ (evaluate : Dict String → Bool) (order order' : List Service → List Service)
        (among : (services : List Service) (x : Service)
          → Any (λ y. y ≡ x) (order' services)
          → Any (λ y. y ≡ x) (order services)) where
      abbrev First : {A : Type 0} → Exec Agent A → Exec Agent A → Type 0
      First = Quiets Below Below-refl Below-trans

      services-Quiets :
          (ctx : Context) (services : List Service)
          → First
              (goroutines_loop platform json names cache outside proxy visit ctx (order services))
              (goroutines_loop platform json names cache outside proxy visit' ctx (order' services))
      services-Quiets ctx services s s' u e =
          let (below, idle) = goroutines-IsIdle ctx (order services) s s' u e in
          let idle' =
            All-among (IsIdle ctx s') (order services) (order' services) idle (among services) in
          (below, λ t later. idle_loop ctx (order' services) s' t later idle')

      list-Quiets :
          (ctx : Context) (services : List Service)
          → First
              (process_kong_services_list platform json names cache outside proxy visit evaluate
                order ctx services)
              (process_kong_services_list platform json names cache outside proxy visit' evaluate
                order' ctx services)
      unfolding process_kong_services_list
      list-Quiets ctx services =
          bind-Quiets Below Below-refl Below-trans _ _ _ _ (started-Settles evaluate services)
            (services-Quiets ctx)

      answer-Quiets :
          (ctx : Context) (rest rest' : Exec Agent (Option String)) (answer : Result (List Service))
          → First rest rest'
          → First
              (discover_listed platform json names cache outside proxy visit evaluate order ctx rest
                answer)
              (discover_listed platform json names cache outside proxy visit' evaluate order' ctx
                rest' answer)
      unfolding discover_listed
      answer-Quiets ctx rest rest' (err e) h = pure-Once (some e)
      answer-Quiets ctx rest rest' (ok services) h =
          bind-Quiets Below Below-refl Below-trans _ _ _ _ (list-Quiets ctx services) (λ done. h)

      discovery-Quiets :
          (workspaces : List String)
          → First
              (discover_apis platform json names cache outside proxy visit evaluate order
                workspaces)
              (discover_apis platform json names cache outside proxy visit' evaluate order'
                workspaces)
      unfolding discover_apis
      discovery-Quiets [] = pure-Once none
      discovery-Quiets (workspace ∷ rest) =
          bind-Quiets Below Below-refl Below-trans _ _ _ _
            (still-Settles platform json names cache outside laws _ _
              (still.services_still (workspace_context workspace)))
            (λ listed. answer-Quiets _ _ _ listed (discovery-Quiets rest))

      -- A discovery that returned is followed by one that returns the same and changes nothing: it
      -- publishes nothing, and the cache stays as it is. This holds whatever the orders in which the
      -- two visit the plugins of a route, and whatever the orders in which the goroutines of the
      -- services run, if the second runs only goroutines that the first ran. No route has more than
      -- one effective authentication plugin, the gateway answers as before, and the cache keeps what
      -- it takes.
      pub discover_apis-again :
          (workspaces : List String) (s s' : Agent) (error : Option String)
          → discover_apis platform json names cache outside proxy visit evaluate order workspaces s
            ≡ (ret error, s')
          → discover_apis platform json names cache outside proxy visit' evaluate order' workspaces
              s'
            ≡ (ret error, s')
      discover_apis-again workspaces s s' error run =
          (discovery-Quiets workspaces s s' error run).1 s' (Below-refl s')
