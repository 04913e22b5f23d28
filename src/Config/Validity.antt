-- ===== src/Config/Validity.antt =====
-- What the checks of the configuration establish.
use agents_kong.Prelude.{
  String, ◌≡◌, ◌≢◌, ◌⊎◌, ◌↔◌, refl, Bool, true, false, Option, none, some, List, arith, eq_iff,
}
use agents_kong.Prelude.Text.{has_prefix, has_suffix}
use agents_kong.Prelude.Int.{pos, is_zero}
use agents_kong.Config.{
  KongGatewayConfig, PortSettings, Props, port_settings, parse_properties,
  invalid_credential_config, invalid_admin_url, tls_error, validate_cfg,
}

-- A port is either off or has a number.
abbrev pub IsUsable : PortSettings → Type 0
IsUsable p = (p.disable ≡ true) ⊎ (is_zero p.value ≡ false)

module _ {Tls : Type 0} (parse_url : String → Option (String × String))
    (tls_validate : Tls → Option (Option String)) where
  -- A URL with a scheme and a host.
  abbrev pub IsAdminUrl : String → Type 0
  IsAdminUrl u =
      (scheme : String) × (host : String) × (parse_url u ≡ some (scheme, host))
      × (scheme ≢ "")
      × (host ≢ "")

  -- What a configuration must satisfy, each part apart from the order of the checks.
  pub record IsValid (c : KongGatewayConfig Tls) : Type 0 where
    pub host : c.proxy.host ≢ ""
    pub http_port : IsUsable c.proxy.ports.http
    pub https_port : IsUsable c.proxy.ports.https
    pub some_port : (c.proxy.ports.http.disable ≡ false) ⊎ (c.proxy.ports.https.disable ≡ false)
    pub base_path :
        (c.proxy.base_path ≡ "")
        ⊎ ((has_prefix c.proxy.base_path "/" ≡ true) × (has_suffix c.proxy.base_path "/" ≡ false))
    pub admin_url : IsAdminUrl c.admin.url
    pub credentials :
        (c.admin.auth.basic_auth.username ≡ "") ↔ (c.admin.auth.basic_auth.password ≡ "")
    pub tls : (tls_validate c.admin.tls ≡ none) ⊎ (tls_validate c.admin.tls ≡ some none)

  parsed_url :
      (u : String) (o : Option (String × String))
      → parse_url u ≡ o
      → invalid_admin_url parse_url tls_validate u ≡ false
      → IsAdminUrl u
  unfolding invalid_admin_url
  parsed_url u none e h = let none_parsed : ⊥ = ground arith in absurd none_parsed
  parsed_url u (some (scheme, host)) e h =
      (scheme, host, e, ground (arith, eq_iff scheme ""), ground (arith, eq_iff host ""))

  admin_url-eq-false :
      (u : String) → IsAdminUrl u → invalid_admin_url parse_url tls_validate u ≡ false
  unfolding invalid_admin_url
  admin_url-eq-false u (scheme, host, e, h, k) = ground (arith, eq_iff scheme "", eq_iff host "")

  credentials-eq-false :
      (c : KongGatewayConfig Tls)
      → (invalid_credential_config c ≡ false)
        ↔ ((c.admin.auth.basic_auth.username ≡ "") ↔ (c.admin.auth.basic_auth.password ≡ ""))
  unfolding invalid_credential_config
  credentials-eq-false c =
      let user = c.admin.auth.basic_auth.username in
      let pass = c.admin.auth.basic_auth.password in ground (arith, eq_iff user "", eq_iff pass "")

  tls_error-eq-none :
      (t : Tls)
      → (tls_error parse_url tls_validate t ≡ none)
        ↔ ((tls_validate t ≡ none) ⊎ (tls_validate t ≡ some none))
  unfolding tls_error
  tls_error-eq-none t = ground arith

  validate_cfg_sound :
      (c : KongGatewayConfig Tls) → validate_cfg parse_url tls_validate c ≡ none → IsValid c
  unfolding validate_cfg
  validate_cfg_sound c h = record {
    host = ground (arith, eq_iff c.proxy.host "");
    http_port = ground arith;
    https_port = ground arith;
    some_port = ground arith;
    base_path = ground (arith, eq_iff c.proxy.base_path "");
    admin_url = parsed_url c.admin.url (parse_url c.admin.url) refl (ground arith);
    credentials = (credentials-eq-false c).0 (ground arith);
    tls = (tls_error-eq-none c.admin.tls).0 (ground arith);
  }

  validate_cfg_complete :
      (c : KongGatewayConfig Tls) → IsValid c → validate_cfg parse_url tls_validate c ≡ none
  unfolding validate_cfg
  validate_cfg_complete c v = ground (
    arith,
    eq_iff c.proxy.host "",
    eq_iff c.proxy.base_path "",
    admin_url-eq-false c.admin.url v.admin_url,
    (credentials-eq-false c).1 v.credentials,
    (tls_error-eq-none c.admin.tls).1 v.tls,
  )

  -- The check passes exactly the configurations with a host, a number for each port that is not
  -- disabled, at least one port enabled, a base path that is empty or begins with a slash and does
  -- not end with one, an Admin URL with scheme and host, a user name and a password together or
  -- neither, and TLS settings that pass their own check, if they have one.
  pub validate_cfg_iff :
      (c : KongGatewayConfig Tls) → (validate_cfg parse_url tls_validate c ≡ none) ↔ IsValid c
  validate_cfg_iff c = (validate_cfg_sound c, validate_cfg_complete c)

port_settings-cases :
    (props : Props) (disable value : String)
    → let p = port_settings props disable value in
      ((p.disable ≡ true) × (p.value ≡ pos 0)) ⊎ (p.disable ≡ false)
unfolding port_settings
port_settings-cases props disable value = ground arith

module _ {Tls : Type 0} (build_tls : List String → Bool → List String → String → String → Tls)
    (parse_url : String → Option (String × String))
    (tls_validate : Tls → Option (Option String)) where
  -- A configuration that was read from the properties and passes the check marks a port as disabled
  -- exactly when its number is zero, and one of the two numbers is not zero.
  pub parsed_ports :
      (props : Props)
      → validate_cfg parse_url tls_validate (parse_properties build_tls props) ≡ none
      → let ports = (parse_properties build_tls props).proxy.ports in
        (ports.http.disable ≡ is_zero ports.http.value)
        × (ports.https.disable ≡ is_zero ports.https.value)
        × ((is_zero ports.http.value ≡ false) ⊎ (is_zero ports.https.value ≡ false))
  unfolding parse_properties
  parsed_ports props h =
      let v = validate_cfg_sound parse_url tls_validate (parse_properties build_tls props) h in
      ground (
        arith,
        v.http_port,
        v.https_port,
        v.some_port,
        port_settings-cases props "kong.proxy.ports.http.disable" "kong.proxy.ports.http.value",
        port_settings-cases props "kong.proxy.ports.https.disable" "kong.proxy.ports.https.value",
      )
