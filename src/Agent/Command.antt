-- ===== src/Agent/Command.antt =====
-- pkg/discovery/cmd/cmd.go: the callbacks of the discovery agent's command.
pub mod Steady
mod Tests
use agents_kong.Prelude.{ℕ, zero, suc, String, Bool, Option, none, some, List}
use agents_kong.Prelude.Go.{Result, ok, err, ret}
use agents_kong.Prelude.Exec.{Exec, pure, ◌>>=◌}
use agents_kong.Config.{Props, KongGatewayConfig, parse_properties}

pub record AgentConfig (Central Tls : Type 0) : Type 0 where
  pub central_cfg : Central
  pub kong_gateway_cfg : KongGatewayConfig Tls

module _ {Central Tls : Type 0}
    (build_tls : List String → Bool → List String → String → String → Tls) where
  -- The state is the package's variable `agentConfig`; `root_props` is what GetProperties gives.
  unfoldable pub init_config :
      Props → Central → Exec (AgentConfig Central Tls) (Result (AgentConfig Central Tls))
  unfolding parse_properties
  init_config root_props central s =
      let agent_config : AgentConfig Central Tls = record {
        central_cfg = central;
        kong_gateway_cfg = parse_properties build_tls root_props;
      } in
      (ret (ok agent_config), agent_config)

-- How far `run` is: its goroutine still polls, or it has returned an error.
pub data Run : Type 0 where
  polling : Run
  returned : String → Run

-- `discover_apis` is DiscoverAPIs in the poll that this many others follow: the goroutines of its
-- services run in an order of their own each time.
module _ {S A : Type 0} (discover_apis : ℕ → A → Exec S (Option String)) where
  -- an error goes to `stopChan`, and `run` returns it
  unfoldable pub after_poll : Exec S Run → Option String → Exec S Run
  after_poll later none = later
  after_poll later (some e) = pure (returned e)

  -- the loop of the goroutine, for a number of polls
  unfoldable pub poll_loop : A → ℕ → Exec S Run
  unfolding after_poll
  poll_loop agent zero = pure polling
  poll_loop agent (suc polls) =
      let later = poll_loop agent polls in
      do error ← discover_apis polls agent; after_poll later error

  unfoldable pub run_agent : ℕ → Result A → Exec S Run
  unfolding poll_loop
  run_agent polls (err e) = pure (returned e)
  run_agent polls (ok agent) = poll_loop agent polls

  -- `new_agent` is NewAgent on the configuration.
  unfoldable pub run : ℕ → Exec S (Result A) → Exec S Run
  unfolding run_agent
  run polls new_agent = do made ← new_agent; run_agent polls made
