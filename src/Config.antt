-- ===== src/Config.antt =====
-- pkg/discovery/config/config.go: the configuration of the discovery agent, how it is read from the
-- properties and how it is checked. The TLS settings and net/url's parser are parameters.
pub mod Validity
mod Tests
use agents_kong.Prelude.{
  String, Bool, true, false, not, ◌&&◌, ◌||◌, Option, none, some, List, [], ◌∷◌, ◌==◌,
  if◌then◌else◌,
}
use agents_kong.Prelude.Text.{◌<>◌, has_prefix, has_suffix}
use agents_kong.Prelude.Int.{ℤ, pos, is_zero}

pub record PortSettings : Type 0 where
  pub value : ℤ
  pub disable : Bool

pub record PortConfig : Type 0 where
  pub http : PortSettings
  pub https : PortSettings

pub record ProxyConfig : Type 0 where
  pub host : String
  pub ports : PortConfig
  pub base_path : String

pub record ApiKeyConfig : Type 0 where
  pub header : String
  pub value : String

pub record BasicAuthConfig : Type 0 where
  pub username : String
  pub password : String

pub record AuthConfig : Type 0 where
  pub api_key : ApiKeyConfig
  pub basic_auth : BasicAuthConfig

pub record AdminConfig (Tls : Type 0) : Type 0 where
  pub url : String
  pub auth : AuthConfig
  pub tls : Tls

pub record SpecConfig : Type 0 where
  pub url_paths : List String
  pub local_path : String
  pub dev_portal_enabled : Bool
  pub filter : String
  pub create_unstructured_api : Bool

pub record AclConfig : Type 0 where
  pub disable : Bool

pub record KongGatewayConfig (Tls : Type 0) : Type 0 where
  pub workspaces : List String
  pub admin : AdminConfig Tls
  pub proxy : ProxyConfig
  pub spec : SpecConfig
  pub acl : AclConfig

-- The values bound to the properties, by name.
pub record Props : Type 0 where
  pub string_property_value : String → String
  pub string_slice_property_value : String → List String
  pub int_property_value : String → ℤ
  pub bool_property_value : String → Bool

-- A value registered for a property when none is given.
pub data Default : Type 0 where
  string : String → Default
  string_slice : List String → Default
  int : ℤ → Default
  bool : Bool → Default

-- The registrations, in order. The defaults of the TLS settings come from the SDK.
unfoldable pub add_kong_properties : List String → String → List (String × Default)
add_kong_properties default_ciphers default_min_version =
    ("kong.workspaces", string_slice [])
    ∷ ("kong.acl.disable", bool false)
    ∷ ("kong.admin.url", string "")
    ∷ ("kong.admin.auth.apiKey.value", string "")
    ∷ ("kong.admin.auth.apiKey.header", string "")
    ∷ ("kong.admin.auth.basicauth.username", string "")
    ∷ ("kong.admin.auth.basicauth.password", string "")
    ∷ ("kong.admin.ssl.nextProtos", string_slice [])
    ∷ ("kong.admin.ssl.insecureSkipVerify", bool false)
    ∷ ("kong.admin.ssl.cipherSuites", string_slice default_ciphers)
    ∷ ("kong.admin.ssl.minVersion", string default_min_version)
    ∷ ("kong.admin.ssl.maxVersion", string "0")
    ∷ ("kong.proxy.host", string "")
    ∷ ("kong.proxy.ports.http.value", int (pos 80))
    ∷ ("kong.proxy.ports.http.disable", bool false)
    ∷ ("kong.proxy.ports.https.value", int (pos 443))
    ∷ ("kong.proxy.ports.https.disable", bool false)
    ∷ ("kong.proxy.basePath", string "")
    ∷ ("kong.spec.urlPaths", string_slice [])
    ∷ ("kong.spec.localPath", string "")
    ∷ ("kong.spec.filter", string "")
    ∷ ("kong.spec.devPortalEnabled", bool false)
    ∷ ("kong.spec.createUnstructuredAPI", bool false)
    ∷ []

-- the value of a disabled port is reset to zero
unfoldable pub port_settings : Props → String → String → PortSettings
port_settings props disable value =
    let conf : PortSettings = record {
      value = props.int_property_value value;
      disable = props.bool_property_value disable;
    } in
    if conf.disable then record conf { value = pos 0 } else conf

-- `build_tls` makes the TLS settings of the protocols, the skip flag, the ciphers and the versions.
module _ {Tls : Type 0} (build_tls : List String → Bool → List String → String → String → Tls) where
  unfoldable pub parse_properties : Props → KongGatewayConfig Tls
  unfolding port_settings
  parse_properties props = record {
    workspaces = props.string_slice_property_value "kong.workspaces";
    acl = record { disable = props.bool_property_value "kong.acl.disable" };
    admin = record {
      url = props.string_property_value "kong.admin.url";
      auth = record {
        api_key = record {
          value = props.string_property_value "kong.admin.auth.apiKey.value";
          header = props.string_property_value "kong.admin.auth.apiKey.header";
        };
        basic_auth = record {
          username = props.string_property_value "kong.admin.auth.basicauth.username";
          password = props.string_property_value "kong.admin.auth.basicauth.password";
        };
      };
      tls =
          build_tls (props.string_slice_property_value "kong.admin.ssl.nextProtos")
            (props.bool_property_value "kong.admin.ssl.insecureSkipVerify")
            (props.string_slice_property_value "kong.admin.ssl.cipherSuites")
            (props.string_property_value "kong.admin.ssl.minVersion")
            (props.string_property_value "kong.admin.ssl.maxVersion");
    };
    proxy = record {
      host = props.string_property_value "kong.proxy.host";
      ports = record {
        http = port_settings props "kong.proxy.ports.http.disable" "kong.proxy.ports.http.value";
        https = port_settings props "kong.proxy.ports.https.disable" "kong.proxy.ports.https.value";
      };
      base_path = props.string_property_value "kong.proxy.basePath";
    };
    spec = record {
      dev_portal_enabled = props.bool_property_value "kong.spec.devPortalEnabled";
      url_paths = props.string_slice_property_value "kong.spec.urlPaths";
      local_path = props.string_property_value "kong.spec.localPath";
      create_unstructured_api = props.bool_property_value "kong.spec.createUnstructuredAPI";
      filter = props.string_property_value "kong.spec.filter";
    };
  }

abbrev pub host_err : String
host_err = "kong host must be provided"

abbrev pub http_port_err : String
http_port_err = "a non-zero value is required for the http port number when it is enabled"

abbrev pub https_port_err : String
https_port_err = "a non-zero value is required for the https port number when it is enabled"

abbrev pub base_path_prefix_err : String
base_path_prefix_err = "the base path must start with a '/' character"

abbrev pub base_path_suffix_err : String
base_path_suffix_err = "the base path must not end with a '/' character"

abbrev pub port_err : String
port_err = "at least one port endpoint needs to be enabled"

abbrev pub invalid_url_err : String
invalid_url_err =
    "invalid Admin API url provided. Must contain protocol, hostname and optionally port.Examples: <http://kong.com:8001>, <https://kong.com:8444>"

abbrev pub credential_config_err : String
credential_config_err =
    "invalid authorization configuration provided. If provided, (Username and Password) or (ClientID and ClientSecret) must be non-empty"

module _ {Tls : Type 0} where
  unfoldable pub no_credentials_provided : KongGatewayConfig Tls → Bool
  no_credentials_provided c =
      let auth = c.admin.auth in
      auth.api_key.value == "" && (auth.basic_auth.username == "" && auth.basic_auth.password == "")

  unfoldable pub invalid_credential_config : KongGatewayConfig Tls → Bool
  invalid_credential_config c =
      let user = c.admin.auth.basic_auth.username in
      let pass = c.admin.auth.basic_auth.password in
      (user == "" && not (pass == "")) || (not (user == "") && pass == "")

-- `parse_url` gives the scheme and the host of a text that net/url parses. `tls_validate` is `none`
-- where the settings have no check, and else the error of the check, if there is one.
module _ {Tls : Type 0} (parse_url : String → Option (String × String))
    (tls_validate : Tls → Option (Option String)) where
  unfoldable pub invalid_admin_url : String → Bool
  invalid_admin_url u = elim (parse_url u) [
    | none ↦ true
    | some (scheme, host) ↦ scheme == "" || host == ""
  ]

  unfoldable pub tls_error : Tls → Option String
  tls_error tls = elim (tls_validate tls) [
    | none ↦ none
    | some none ↦ none
    | some (some e) ↦ some ("kong.admin." <> e)
  ]

  -- `none` is the nil error. The warning on missing credentials has no effect.
  unfoldable pub validate_cfg : KongGatewayConfig Tls → Option String
  validate_cfg c =
      let ports = c.proxy.ports in
      let base = c.proxy.base_path in
      if c.proxy.host == ""
      then some host_err
      else if not ports.http.disable && is_zero ports.http.value
      then some http_port_err
      else if not (base == "") && not (has_prefix base "/")
      then some base_path_prefix_err
      else if not (base == "") && has_suffix base "/"
      then some base_path_suffix_err
      else if not ports.https.disable && is_zero ports.https.value
      then some https_port_err
      else if ports.http.disable && ports.https.disable
      then some port_err
      else if invalid_admin_url c.admin.url
      then some invalid_url_err
      else if invalid_credential_config c
      then some credential_config_err
      else tls_error c.admin.tls
