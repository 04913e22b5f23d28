-- ===== src/Agent/Service/Rerun.antt =====
-- One route: what is processed once has nothing to do when it is processed again.
use agents_kong.Prelude.{◌≡◌, ap, Option, none, some}
use agents_kong.Prelude.Go.{Result, ok, err, Ret, ret, panic}
use agents_kong.Prelude.Exec.{Exec, pure, lift, continue, ◌>>=◌}
use agents_kong.Common.{Context}
use agents_kong.Kong.Klib.{Route, Service}
use agents_kong.Kong.AuthPlugins.{Json}
use agents_kong.Subscription.Sdk.{Names}
use agents_kong.Agent.Sdk.{KongApi, Platform}
use agents_kong.Agent.Publish.{CacheApi, process_api}
use agents_kong.Agent.Publish.Change.{Grows, LawfulCache, process_api-Grows, process_api_repeat}
use agents_kong.Agent.Service.Settling.{Settles, lift-Settles, ext-Settles}
use agents_kong.Agent.Service.{Outside, State, on_world, publish, publish_answer, process_made}

module _ (platform : Platform) (json : Json) (names : Names) (cache : CacheApi)
    (outside : Outside platform) (laws : LawfulCache cache) where
  abbrev pub Agent : Type 0
  Agent = State platform json names cache outside

  abbrev pub Below : Agent → Agent → Type 0
  Below s t = Grows cache s.content t.content

  pub Below-refl : (s : Agent) → Below s s
  Below-refl s key h = h

  pub Below-trans : (s t u : Agent) → Below s t → Below t u → Below s u
  Below-trans s t u f g key h = g key (f key h)

  abbrev pub Once : {A : Type 0} → Exec Agent A → Type 0
  Once = Settles Below Below-refl Below-trans

  -- a call of the gateway, which stands still
  pub still-Settles :
      {A : Type 0} (m : Exec outside.World A) (answer : Ret A)
      → ((w : outside.World) → m w ≡ (answer, w))
      → Once (on_world platform json names cache outside m)
  still-Settles m answer h =
      ext-Settles Below Below-refl Below-trans (on_world platform json names cache outside m)
        (lift answer)
        (λ s. ap (λ (out : Ret _ × outside.World). (out.0, record s { world = out.1 })) (h s.world))
        (lift-Settles Below Below-refl Below-trans answer)

  -- Publishing leaves the cache alone, and gives the processor that is passed on.
  publish_answer-outcome :
      (answer : Result (Option platform.ServiceBody)) (spec a : platform.SpecProcessor)
      (s s' : Agent)
      → publish_answer platform json names cache outside (answer, spec) s ≡ (ret a, s')
      → (ret spec ≡ ret a) × (s.content ≡ s'.content)
  unfolding publish_answer publish
  publish_answer-outcome (err m) spec a s s' e = (ap (λ o. o.0) e, ap (λ o. o.1.content) e)
  publish_answer-outcome (ok none) spec a s s' e = (ap (λ o. o.0) e, ap (λ o. o.1.content) e)
  publish_answer-outcome (ok (some body)) spec a s s' e = (ap (λ o. o.0) e, ap (λ o. o.1.content) e)

  module _ (ctx : Context) (route : Route) (service : Service) where
    abbrev pub process_and_publish :
        Ret KongApi → platform.SpecProcessor → Exec Agent platform.SpecProcessor
    process_and_publish made spec = do
      answer ← process_made platform json names cache outside ctx route service spec made
      publish_answer platform json names cache outside answer

    -- a run that returned: what it left in the cache, and what it returned
    answered-outcome :
        (out : Ret (Result (Option platform.ServiceBody)) × cache.Content)
        (spec a : platform.SpecProcessor) (s s' : Agent)
        → continue
            (continue (out.0, record s { content = out.1 }) (λ answer. pure (answer, spec)))
            (publish_answer platform json names cache outside)
          ≡ (ret a, s')
        → (ret spec ≡ ret a) × (out.1 ≡ s'.content)
    answered-outcome (ret answer, c) spec a s s' e =
        publish_answer-outcome answer spec a (record s { content = c }) s' e
    answered-outcome (panic, c) spec a s s' e = cc

    pub process_and_publish-Settles :
        (made : Ret KongApi) (spec : platform.SpecProcessor) → Once (process_and_publish made spec)
    unfolding process_made publish_answer publish
    process_and_publish-Settles panic spec s s' a e = cc
    process_and_publish-Settles (ret api) spec s s' a e =
        let (value, left) =
          answered-outcome (process_api platform cache ctx route service api s.content) spec a s s'
            e in
        (
          rw (← left) (process_api-Grows platform cache ctx route service api laws s.content),
          λ t later.
              rw
                (process_api_repeat platform cache ctx route service api laws s.content t.content
                  (rw left later))
                (ap (λ r. (r, t)) value),
        )
