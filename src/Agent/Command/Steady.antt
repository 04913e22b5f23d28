-- ===== src/Agent/Command/Steady.antt =====
-- The discovery agent's command at a gateway that has not changed.
use agents_kong.Prelude.{
  ℕ, zero, suc, String, ◌≡◌, refl, ap, ◌∙◌, Bool, Option, none, some, List, Any,
}
use agents_kong.Prelude.Dict.{Dict}
use agents_kong.Prelude.Go.{Result, ok, ret}
use agents_kong.Prelude.Exec.{Exec, continue}
use agents_kong.Common.{Context}
use agents_kong.Config.{ProxyConfig}
use agents_kong.Kong.Klib.{Plugin, Route, Service}
use agents_kong.Kong.AuthPlugins.{Json}
use agents_kong.Subscription.Sdk.{Names}
use agents_kong.Agent.Sdk.{Platform}
use agents_kong.Agent.Publish.{CacheApi}
use agents_kong.Agent.Publish.Change.{LawfulCache}
use agents_kong.Agent.Service.{Outside, State}
use agents_kong.Agent.Discovery.{discover_apis}
use agents_kong.Agent.Service.Steady.{StandsStill}
use agents_kong.Agent.Service.Orders.{IsOrder, HaveOneAuth}
use agents_kong.Agent.Discovery.Steady.{discover_apis-again}
use agents_kong.Agent.Command.{Run, polling, returned, after_poll, poll_loop, run_agent, run}

-- How far `run` is after a discovery.
abbrev pub outcome : Option String → Run
outcome none = polling
outcome (some e) = returned e

module _ {S A : Type 0} (discover : ℕ → A → Exec S (Option String)) (agent : A) (s : S) where
  poll_loop_idle :
      (polls : ℕ)
      → ((n : ℕ) → discover n agent s ≡ (ret none, s))
      → poll_loop discover agent polls s ≡ (ret polling, s)
  unfolding poll_loop after_poll
  poll_loop_idle zero again = refl
  poll_loop_idle (suc polls) again =
      ap (λ out. continue out (after_poll discover (poll_loop discover agent polls))) (again polls)
      ∙ poll_loop_idle polls again

  after_poll_idle :
      (polls : ℕ) (error : Option String)
      → ((n : ℕ) → discover n agent s ≡ (ret error, s))
      → after_poll discover (poll_loop discover agent polls) error s ≡ (ret (outcome error), s)
  unfolding after_poll
  after_poll_idle polls none again = poll_loop_idle polls again
  after_poll_idle polls (some e) again = refl

  -- a first discovery that the later ones repeat
  poll_loop_settled :
      (polls : ℕ) (start : S) (error : Option String)
      → discover polls agent start ≡ (ret error, s)
      → ((n : ℕ) → discover n agent s ≡ (ret error, s))
      → poll_loop discover agent (suc polls) start ≡ (ret (outcome error), s)
  unfolding poll_loop
  poll_loop_settled polls start error first again =
      ap (λ out. continue out (after_poll discover (poll_loop discover agent polls))) first
      ∙ after_poll_idle polls error again

module _ (platform : Platform) (json : Json) (names : Names) (cache : CacheApi)
    (outside : Outside platform) (laws : LawfulCache cache)
    (still : StandsStill platform outside) where
  abbrev Agent : Type 0
  Agent = State platform json names cache outside

  module _ (proxy : ProxyConfig) (evaluate : Dict String → Bool) {A : Type 0}
      (workspaces : A → List String)
      (visit : ℕ → Context → Service → Route → Dict (Option Plugin) → Dict (Option Plugin))
      (order : ℕ → List Service → List Service) where
    -- DiscoverAPIs of an agent that NewAgent made, in the poll that `n` others follow
    abbrev pub discover : ℕ → A → Exec Agent (Option String)
    discover n agent =
        discover_apis platform json names cache outside proxy (visit n) evaluate (order n)
          (workspaces agent)

    -- Where NewAgent gives an agent and its first discovery returns, any number of polls from one on
    -- leaves `run` as the first did: it polls on if the discovery gave no error, and else has returned
    -- that error, and the later polls publish nothing and leave the cache alone. Each poll may visit
    -- the plugins of a route in an order of its own, and its goroutines may run in an order of their
    -- own, if the first poll ran all of them. No route has more than one effective authentication
    -- plugin, the gateway answers as before, and the cache keeps what it takes.
    pub run_steady :
        (polls : ℕ) (new_agent : Exec Agent (Result A)) (agent : A) (start s s' : Agent)
        (error : Option String)
        → ((n : ℕ) → IsOrder (visit n))
        → HaveOneAuth platform json names cache outside still
        → new_agent start ≡ (ret (ok agent), s)
        → discover polls agent s ≡ (ret error, s')
        → ((n : ℕ) (services : List Service) (x : Service)
            → Any (λ y. y ≡ x) (order n services)
            → Any (λ y. y ≡ x) (order polls services))
        → run discover (suc polls) new_agent start ≡ (ret (outcome error), s')
    unfolding run run_agent
    run_steady polls new_agent agent start s s' error orders one made first among =
        ap (λ out. continue out (run_agent discover (suc polls))) made
        ∙ poll_loop_settled discover agent s' polls s error first (λ n.
          discover_apis-again platform json names cache outside laws still proxy (visit polls)
            (visit n) (orders polls) (orders n) one evaluate (order polls) (order n) (among n)
            (workspaces agent) s s' error first)
