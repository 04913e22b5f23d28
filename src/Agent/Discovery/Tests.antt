-- ===== src/Agent/Discovery/Tests.antt =====
-- Two discoveries of a gateway with one service of two routes, one of which has no name, and a run of the
-- agent's command.
use mathlib.Core.List.{reverse}
use mathlib.Core.List.Permᴰ as Perm
use agents_kong.Prelude.{
  ℕ, Option, some, nat_eq, Bool-cases, inl, inr, sym, arith, if◌then◌else◌, true, ◌≡◌, refl, none,
  [], ◌∷◌, length,
}
use agents_kong.Prelude.Go.{ok, ret, ret-injective}
use agents_kong.Prelude.Exec.{pure}
use agents_kong.Prelude.Dict.{Dict, insert, lookup}
use agents_kong.Common.{Context}
use agents_kong.Kong.Klib.{Plugin, Route, Service}
use agents_kong.Subscription.Samples.{sample_names}
use agents_kong.Agent.Samples.{
  platform, json, cache, cache_laws, outside, standing, proxy, key_auth,
}
use agents_kong.Kong.Plugins.{get_effective_plugins, most_specific, pointer}
use agents_kong.Kong.AuthPlugins.{new_key_auth_plugin_config_from_map}
use agents_kong.Agent.Route.{get_endpoints}
use agents_kong.Agent.Security.{process_spec_security}
use agents_kong.Agent.Publish.{new_kong_api, process_api}
use agents_kong.Agent.Service.{State}
use agents_kong.Agent.Service.Orders.{IsOrder, HaveOneAuth}
use agents_kong.Agent.Discovery.{discover_apis}
use agents_kong.Agent.Discovery.Steady.{discover_apis-again}
use agents_kong.Agent.Command.{polling, run}
use agents_kong.Agent.Command.Steady.{discover, run_steady}

abbrev Agent : Type 0
Agent = State platform json sample_names cache outside

-- The plugins are visited as they are listed, or backward.
abbrev listed_order : Context → Service → Route → Dict (Option Plugin) → Dict (Option Plugin)
listed_order ctx service route plugins = plugins

abbrev backward : Context → Service → Route → Dict (Option Plugin) → Dict (Option Plugin)
backward ctx service route plugins = reverse plugins

is_listed_order : IsOrder listed_order
is_listed_order ctx service route plugins = Perm.refl plugins

is_backward : IsOrder backward
is_backward ctx service route plugins = Perm.symm (Perm.reverse plugins)

-- the first of five polls, which four others follow, visits them as listed
abbrev orders : ℕ → Context → Service → Route → Dict (Option Plugin) → Dict (Option Plugin)
orders n = if nat_eq n 4 then listed_order else backward

are_orders : (n : ℕ) → IsOrder (orders n)
are_orders n = elim (Bool-cases (nat_eq n 4)) [
  | inl first ↦ rw first (is_listed_order)
  | inr later_on ↦ rw later_on (is_backward)
]

one_auth : HaveOneAuth platform json sample_names cache outside standing
unfolding get_effective_plugins insert most_specific pointer lookup
one_auth ctx route_id service_id listed d e f =
    let same : listed ≡ ok (key_auth ∷ []) = sym (ret-injective e) in
    let found : ret (ok (("key-auth", some key_auth) ∷ [])) ≡ ret (ok d) = rw same at f in
    let entries : ("key-auth", some key_auth) ∷ [] ≡ d = cc in rw (← entries) (omega arith)

abbrev start : Agent
start = record { world = []; content = [] }

-- the state after the first discovery
abbrev later : Agent
later =
    (discover_apis platform json sample_names cache outside proxy listed_order (λ tags. true)
      (λ started. started) ("team" ∷ []) start).1

-- one body is published
published : length later.world ≡ 1
unfolding discover_apis get_effective_plugins get_endpoints new_kong_api process_spec_security
    insert most_specific pointer lookup new_key_auth_plugin_config_from_map process_api
published = refl

first_run :
    discover_apis platform json sample_names cache outside proxy listed_order
      (λ tags. true)
      (λ started. started)
      ("team" ∷ [])
      start
    ≡ (ret none, later)
unfolding discover_apis get_effective_plugins get_endpoints new_kong_api process_spec_security
    insert most_specific pointer lookup new_key_auth_plugin_config_from_map process_api
first_run = refl

discover_apis-again_example :
    discover_apis platform json sample_names cache outside proxy backward
      (λ tags. true)
      (λ started. started)
      ("team" ∷ [])
      later
    ≡ (ret none, later)
discover_apis-again_example =
    discover_apis-again platform json sample_names cache outside cache_laws standing proxy
      listed_order backward is_listed_order is_backward one_auth (λ tags. true) (λ started. started)
      (λ started. started) (λ services x found. found) ("team" ∷ []) start later none first_run

-- `Unit` stands for the agent, which polls the workspace "team"; five polls.
run_steady_example :
    run
      (discover platform json sample_names cache outside cache_laws standing proxy
        (λ tags. true)
        (λ (agent : Unit {0}). "team" ∷ [])
        orders
        (λ n started. started))
      5
      (pure (ok tt))
      start
    ≡ (ret polling, later)
run_steady_example =
    run_steady platform json sample_names cache outside cache_laws standing proxy (λ tags. true)
      (λ agent. "team" ∷ []) orders (λ n started. started) 4 (pure (ok tt)) tt start start later
      none are_orders one_auth refl first_run (λ n services x found. found)
