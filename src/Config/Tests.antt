-- ===== src/Config/Tests.antt =====
-- The configuration read from concrete properties, with a parser that knows one URL.
use agents_kong.Prelude.{
  String, ◌≡◌, ◌⊎◌, ◌↔◌, refl, Bool, true, false, Option, none, some, List, [], ◌==◌, if◌then◌else◌,
}
use agents_kong.Prelude.Text.{has_prefix, has_suffix}
use agents_kong.Prelude.Int.{ℤ, pos, is_zero}
use agents_kong.Config.{
  Props, parse_properties, invalid_credential_config, invalid_admin_url, tls_error, validate_cfg,
  port_err,
}
use agents_kong.Config.Validity.{IsValid, validate_cfg_iff, parsed_ports}

-- TLS settings that hold the minimum version and have no check.
abbrev build : List String → Bool → List String → String → String → String
build _ _ _ min_version _ = min_version

abbrev url_parts : String → Option (String × String)
url_parts u = if u == "http://kong:8001" then some ("http", "kong:8001") else none

abbrev no_check : String → Option (Option String)
no_check tls = none

abbrev strings : String → String
strings name =
    if name == "kong.proxy.host"
    then "proxy"
    else if name == "kong.admin.url"
    then "http://kong:8001"
    else if name == "kong.proxy.basePath"
    then "/base"
    else ""

abbrev ints : String → ℤ
ints name = if name == "kong.proxy.ports.http.value" then pos 80 else pos 443

-- https is disabled
abbrev props : Props
props = record {
  string_property_value = strings;
  string_slice_property_value = λ name. [];
  int_property_value = ints;
  bool_property_value = λ name. name == "kong.proxy.ports.https.disable";
}

passes : validate_cfg url_parts no_check (parse_properties build props) ≡ none
unfolding validate_cfg parse_properties invalid_credential_config invalid_admin_url tls_error
    has_prefix has_suffix
passes = refl

validate_cfg_iff_example :
    (validate_cfg url_parts no_check (parse_properties build props) ≡ none)
    ↔ IsValid url_parts no_check (parse_properties build props)
validate_cfg_iff_example = validate_cfg_iff url_parts no_check (parse_properties build props)

parsed_ports_example :
    let ports = (parse_properties build props).proxy.ports in
    (ports.http.disable ≡ is_zero ports.http.value)
    × (ports.https.disable ≡ is_zero ports.https.value)
    × ((is_zero ports.http.value ≡ false) ⊎ (is_zero ports.https.value ≡ false))
parsed_ports_example = parsed_ports build url_parts no_check props passes

-- Both ports disabled is an error.
both_off :
    validate_cfg url_parts no_check
      (parse_properties build (record props { bool_property_value = λ name. true }))
    ≡ some port_err
unfolding validate_cfg parse_properties invalid_credential_config invalid_admin_url tls_error
    has_prefix has_suffix
both_off = refl
