-- ===== src/Traceability/Command/Tests.antt =====
-- The configuration of the registered defaults.
use agents_kong.Prelude.{◌≡◌, refl, String, Option, none, some}
use agents_kong.Prelude.Dict.{lookup}
use agents_kong.Prelude.Go.{ret}
use agents_kong.Prelude.Exec.{Exec, ◌>>=◌}
use agents_kong.Prelude.Text.{has_prefix}
use agents_kong.Prelude.Int.{ℤ, pos}
use agents_kong.Traceability.Config.{
  Default, string, int, Props, add_kong_properties, parse_properties, validate_cfg, AgentConfig,
  get_agent_config,
}
use agents_kong.Traceability.Command.{init_config}

abbrev text_of : Option Default → String
text_of none = ""
text_of (some (string s)) = s
text_of (some (int n)) = ""

abbrev number_of : Option Default → ℤ
number_of none = pos 0
number_of (some (string s)) = pos 0
number_of (some (int n)) = n

abbrev defaults : Props
defaults = record {
  string_property_value = λ name. text_of (lookup name add_kong_properties);
  int_property_value = λ name. number_of (lookup name add_kong_properties);
}

abbrev started : AgentConfig String
started = record { central_cfg = "central"; kong_gateway_cfg = parse_properties defaults }

abbrev starting : Exec (Option (AgentConfig String)) (Option (AgentConfig String))
starting = do made ← init_config defaults "central"; get_agent_config

starts : starting none ≡ (ret (some started), some started)
unfolding init_config get_agent_config
starts = refl

defaults_pass : validate_cfg (parse_properties defaults) ≡ none
unfolding validate_cfg parse_properties lookup add_kong_properties has_prefix
defaults_pass = refl
