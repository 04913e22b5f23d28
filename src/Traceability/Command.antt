-- ===== src/Traceability/Command.antt =====
-- pkg/traceability/cmd/cmd.go: the callback that sets the traceability agent's configuration.
mod Tests
use agents_kong.Prelude.{Option, some}
use agents_kong.Prelude.Go.{Result, ok}
use agents_kong.Prelude.Exec.{Exec, pure, ◌>>=◌}
use agents_kong.Traceability.Config.{Props, parse_properties, AgentConfig, set_agent_config}

module _ {Central : Type 0} where
  -- `root_props` is what GetProperties gives.
  unfoldable pub init_config :
      Props → Central → Exec (Option (AgentConfig Central)) (Result (AgentConfig Central))
  unfolding parse_properties set_agent_config
  init_config root_props central =
      let agent_config : AgentConfig Central = record {
        central_cfg = central;
        kong_gateway_cfg = parse_properties root_props;
      } in
      do done ← set_agent_config (some agent_config); pure (ok agent_config)
