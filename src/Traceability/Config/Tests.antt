-- ===== src/Traceability/Config/Tests.antt =====
-- A concrete configuration of the traceability agent.
use agents_kong.Prelude.{◌≡◌, true, some}
use agents_kong.Prelude.Text.{has_prefix}
use agents_kong.Prelude.Int.{pos}
use agents_kong.Traceability.Config.{Props, parse_properties, validate_cfg, port_err}
use agents_kong.Traceability.Config.Validity.{parse_properties-validate_cfg}

abbrev props : Props
props = record { string_property_value = λ name. "requestlogs"; int_property_value = λ name. pos 0 }

parse_properties-validate_cfg_example :
    (has_prefix (parse_properties props).logs.http.path "/" ≡ true)
    × (validate_cfg (parse_properties props) ≡ some port_err)
parse_properties-validate_cfg_example = parse_properties-validate_cfg props
