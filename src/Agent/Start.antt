-- ===== src/Agent/Start.antt =====
-- pkg/discovery/agent/agent.go: NewAgent, the start of the discovery agent.
pub mod Checked
mod Tests
use agents_kong.Prelude.{String, Bool, Option, none, some, List, [], ◌∷◌, is_empty, if◌then◌else◌}
use agents_kong.Prelude.Go.{Result, ok, err}
use agents_kong.Prelude.Exec.{Call, Exec, pure, lift, ◌>>=◌}
use agents_kong.Common.{Context, default_workspace}
use agents_kong.Config.{KongGatewayConfig}
use agents_kong.Kong.Klib.{Plugin}
use agents_kong.Subscription.Sdk.{Names}
use agents_kong.Subscription.Register.{Registration}
use agents_kong.Subscription.Provisioner.{
  KongClient, Provisioner, ProvisionerOption, with_acl_disable, new_provisioner,
}
use agents_kong.Agent.GlobalAcl.{verify_acl_plugin}
use agents_kong.Agent.Discovery.{workspace_context}

abbrev pub workspaces_or_default : List String → List String
workspaces_or_default workspaces =
    if is_empty workspaces then default_workspace ∷ [] else workspaces

abbrev pub provisioner_options : {S : Type 0} → Bool → List (ProvisionerOption S)
provisioner_options acl_disable = if acl_disable then with_acl_disable ∷ [] else []

-- The client of the agent: the methods for requests, and the lister of a workspace's plugins.
pub record AgentClient (S : Type 0) : Type 0 where
  pub requests : KongClient S
  pub plugins_list_all : Context → Exec S (Result (List Plugin))

pub record Agent (S Filter : Type 0) : Type 0 where
  pub workspaces : List String
  pub client : AgentClient S
  pub filter : Filter

-- The SDK's filters and its registrations, over a state.
pub record Registry (S : Type 0) : Type 1 where
  pub Filter : Type 0
  pub new_filter : String → Result Filter
  pub register_provisioner : Provisioner S → S → S
  pub register : Registration → Call S (Unit {0})

module _ {S : Type 0} (client : AgentClient S) (acl_disable : Bool) where
  -- `none` is the nil error; the rest of the loop is run only then.
  unfoldable pub verified : Exec S (Option String) → Option String → Exec S (Option String)
  verified rest none = rest
  verified rest (some e) = pure (some e)

  unfoldable pub verify_loop : List String → Exec S (Option String)
  unfolding verified
  verify_loop [] = pure none
  verify_loop (workspace ∷ rest) =
      let later = verify_loop rest in
      do
        listed ← client.plugins_list_all (workspace_context workspace)
        error ← lift (verify_acl_plugin listed acl_disable)
        verified later error

module _ (names : Names) {S : Type 0} (registry : Registry S) (env_name : String) where
  unfoldable pub with_filter :
      AgentClient S
      → List String
      → Bool
      → Result registry.Filter
      → Exec S (Result (Agent S registry.Filter))
  unfolding new_provisioner
  with_filter client workspaces acl_disable (err e) = pure (err e)
  with_filter client workspaces acl_disable (ok filter) = do
    done ←
        new_provisioner names registry.register registry.register_provisioner client.requests
          env_name workspaces (provisioner_options acl_disable)
    pure (ok (record { workspaces = workspaces; client = client; filter = filter }))

  -- what follows the loop of the checks
  unfoldable pub with_checks :
      AgentClient S
      → List String
      → Bool
      → String
      → Option String
      → Exec S (Result (Agent S registry.Filter))
  unfolding with_filter
  with_checks client workspaces acl_disable filter (some e) = pure (err e)
  with_checks client workspaces acl_disable filter none =
      with_filter client workspaces acl_disable (registry.new_filter filter)

  -- `new_client` is what NewKongClient gives for the configuration; an option sets another client.
  unfoldable pub new_agent :
      {Tls : Type 0}
      → KongGatewayConfig Tls
      → Result (AgentClient S)
      → Exec S (Result (Agent S registry.Filter))
  unfolding verify_loop with_checks
  new_agent config (err e) = pure (err e)
  new_agent config (ok client) = do
    error ← verify_loop client config.acl.disable (workspaces_or_default config.workspaces)
    with_checks client (workspaces_or_default config.workspaces) config.acl.disable
        config.spec.filter error
