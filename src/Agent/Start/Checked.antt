-- ===== src/Agent/Start/Checked.antt =====
-- What holds once the agent has started.
use agents_kong.Prelude.{
  String, ◌≡◌, refl, ap, sym, ◌∙◌, inl, inr, Bool, false, Option, none, some, List, [], ◌∷◌, All,
  Any,
}
use agents_kong.Prelude.Go.{Result, ok, err, ret}
use agents_kong.Prelude.Exec.{Exec, continue-eq-ret}
use agents_kong.Common.{Context}
use agents_kong.Config.{KongGatewayConfig}
use agents_kong.Kong.Klib.{Plugin}
use agents_kong.Subscription.Sdk.{Names}
use agents_kong.Agent.GlobalAcl.{verify_acl_plugin}
use agents_kong.Agent.GlobalAcl.Found.{IsFilled, IsUnboundAcl, has_global_acl_iff}
use agents_kong.Agent.Discovery.{workspace_context}
use agents_kong.Agent.Start.{
  AgentClient, Agent, Registry, workspaces_or_default, verified, verify_loop, with_checks,
  new_agent,
}

-- The gateway lists plugins with an enabled ACL that is bound to no service and no route.
abbrev pub HasGlobalAcl : Result (List Plugin) → Type 0
HasGlobalAcl (err e) = ⊥
HasGlobalAcl (ok plugins) = Any IsUnboundAcl plugins

abbrev pub AreFilled : Result (List Plugin) → Type 0
AreFilled (err e) = Unit
AreFilled (ok plugins) = All IsFilled plugins

module _ {S : Type 0} (client : AgentClient S) (listed : Context → Result (List Plugin))
    (still : (ctx : Context) (s : S) → client.plugins_list_all ctx s ≡ (ret (listed ctx), s))
    (filled : (ctx : Context) → AreFilled (listed ctx)) where
  checked-HasGlobalAcl :
      (answer : Result (List Plugin))
      → AreFilled answer
      → verify_acl_plugin answer false ≡ ret none
      → HasGlobalAcl answer
  unfolding verify_acl_plugin
  checked-HasGlobalAcl (err e) f h = cc
  checked-HasGlobalAcl (ok plugins) f h = elim ((has_global_acl_iff plugins false f).0 h) [
    | inl disabled ↦ cc
    | inr found ↦ found
  ]

  -- the loop goes on only without an error
  verified-none :
      (rest : Exec S (Option String)) (error : Option String) (t s' : S)
      → verified client false rest error t ≡ (ret none, s')
      → (error ≡ none) × (rest t ≡ (ret none, s'))
  unfolding verified
  verified-none rest none t s' e = (refl, e)
  verified-none rest (some m) t s' e = cc

  loop-HasGlobalAcl :
      (workspaces : List String) (s s' : S)
      → verify_loop client false workspaces s ≡ (ret none, s')
      → All (λ workspace. HasGlobalAcl (listed (workspace_context workspace))) workspaces
  unfolding verify_loop
  loop-HasGlobalAcl [] s s' e = tt
  loop-HasGlobalAcl (workspace ∷ rest) s s' e =
      let answer = listed (workspace_context workspace) in
      let (error, t, checked, continued) =
        continue-eq-ret (verify_acl_plugin answer false, s)
          (verified client false (verify_loop client false rest))
          (rw (still (workspace_context workspace) s) at e) in
      let (passed, later) = verified-none (verify_loop client false rest) error t s' continued in
      let verdict : verify_acl_plugin answer false ≡ ret none =
        ap (λ out. out.0) checked ∙ ap ret passed in
      (
        checked-HasGlobalAcl answer (filled (workspace_context workspace)) verdict,
        loop-HasGlobalAcl rest t s' later,
      )

  module _ (names : Names) (registry : Registry S) (env_name : String) where
    -- an agent is made only without an error
    with_checks-none :
        (workspaces : List String) (acl_disable : Bool) (filter : String) (error : Option String)
        (t s' : S) (agent : Agent S registry.Filter)
        → with_checks names registry env_name client workspaces acl_disable filter error t
          ≡ (ret (ok agent), s')
        → error ≡ none
    unfolding with_checks
    with_checks-none workspaces acl_disable filter none t s' agent e = refl
    with_checks-none workspaces acl_disable filter (some m) t s' agent e = cc

    -- Where NewAgent gives an agent and the check is not disabled, the gateway lists an enabled ACL
    -- that is bound to no service and no route in each workspace of the configuration, or in the
    -- default one if it names none. The lists stay as they are, and Kong fills the name and the flag
    -- of each plugin.
    pub new_agent-HasGlobalAcl :
        {Tls : Type 0} (config : KongGatewayConfig Tls) (s s' : S) (agent : Agent S registry.Filter)
        → config.acl.disable ≡ false
        → new_agent names registry env_name config (ok client) s ≡ (ret (ok agent), s')
        → All
            (λ workspace. HasGlobalAcl (listed (workspace_context workspace)))
            (workspaces_or_default config.workspaces)
    unfolding new_agent
    new_agent-HasGlobalAcl config s s' agent enforced e =
        let workspaces = workspaces_or_default config.workspaces in
        let (error, t, looped, made) =
          continue-eq-ret (verify_loop client config.acl.disable workspaces s)
            (with_checks names registry env_name client workspaces config.acl.disable
              config.spec.filter)
            e in
        let passed =
          with_checks-none workspaces config.acl.disable config.spec.filter error t s' agent made in
        loop-HasGlobalAcl workspaces s t (
          ap (λ disable. verify_loop client disable workspaces s) (sym enforced)
          ∙ (looped ∙ ap (λ x. (ret x, t)) passed))
