-- ===== src/Agent/Security.antt =====
-- pkg/discovery/agent/agent.go: the security of a specification, from the authentication plugins of
-- its route. The specification's processor is changed in place, so it is the state here.
pub mod Definitions
pub mod Orders
use agents_kong.Prelude.{
  String, Bool, true, Option, none, some, List, [], ◌∷◌, ◌++◌, ◌==◌, if◌then◌else◌,
}
use agents_kong.Prelude.Text.{◌<>◌}
use agents_kong.Prelude.Dict.{Dict, insert}
use agents_kong.Prelude.Go.{ok, err, ret, panic}
use agents_kong.Prelude.Exec.{Exec, pure, load, ◌>>=◌}
use agents_kong.Common.{Context, context_workspace, get_string_value_from_ctx, wks_prefix_name}
use agents_kong.Kong.Klib.{Plugin, Configuration}
use agents_kong.Kong.AuthPlugins.{
  Json, KeyAuthPluginConfig, OAuthPluginConfig, basic_auth_plugin, key_auth_plugin, oauth_plugin,
  new_key_auth_plugin_config_from_map, new_oauth_plugin_config_from_map,
}
use agents_kong.Subscription.Sdk.{Names}
use agents_kong.Agent.Route.{EndpointDefinition, https_scheme}
use agents_kong.Agent.Sdk.{
  KongApi, Platform, KeyLocation, query_param, header, OAuthFlow, implicit, authorization_code,
  client_credentials, password, SecurityScheme, http_basic, api_key, oauth,
}

-- kongToCRDMapper, as the function of its keys
unfoldable pub kong_to_crd : Names → String → Option String
kong_to_crd names plugin =
    if plugin == basic_auth_plugin
    then some names.basic_auth_crd
    else if plugin == key_auth_plugin
    then some names.api_key_crd
    else if plugin == oauth_plugin
    then some names.oauth_secret_crd
    else none

-- the definition of one plugin, appended if the plugin is mapped
unfoldable pub add_crd : String → Option String → List String → List String
add_crd workspace none crds = crds
add_crd workspace (some crd) crds = crds ++ (wks_prefix_name workspace crd ∷ [])

-- the endpoint at which the loop stops
unfoldable pub first_https : List EndpointDefinition → Option EndpointDefinition
first_https [] = none
first_https (e ∷ rest) =
    let later = first_https rest in if e.protocol == https_scheme then some e else later

unfoldable pub scopes_loop : List String → Dict String → Dict String
scopes_loop [] scopes = scopes
scopes_loop (n ∷ rest) scopes = scopes_loop rest (insert n n scopes)

abbrev pub location : KeyAuthPluginConfig → KeyLocation
location key_auth = if key_auth.key_in_query then query_param else header

-- the flows of the four grants, each if it is enabled
unfoldable pub oauth_flows : OAuthPluginConfig → Dict String → String → String → List OAuthFlow
oauth_flows config scopes token_url auth_url =
    (if config.enable_implicit_grant then implicit scopes auth_url ∷ [] else [])
    ++ ((if config.enable_authorization_code
          then authorization_code scopes auth_url token_url ∷ []
          else [])
        ++ ((if config.enable_client_credentials
              then client_credentials scopes token_url ∷ []
              else [])
            ++ (if config.enable_password_grant then password scopes token_url ∷ [] else [])))

module _ (platform : Platform) (json : Json) where
  abbrev pub add_security_schemes : SecurityScheme → Exec platform.SpecProcessor (Unit {0})
  add_security_schemes scheme p = (ret tt, platform.add_security_schemes scheme p)

  unfoldable pub key_names_loop : KeyLocation → List String → Exec platform.SpecProcessor (Unit {0})
  key_names_loop place [] = pure tt
  key_names_loop place (key ∷ rest) = do
    done ← add_security_schemes (api_key key place)
    key_names_loop place rest

  unfoldable pub api_key_security : Configuration → Exec platform.SpecProcessor (Unit {0})
  unfolding key_names_loop
  api_key_security config = elim (new_key_auth_plugin_config_from_map json config) [
    | err e ↦ pure tt
    | ok key_auth ↦ key_names_loop (location key_auth) key_auth.key_names
  ]

  abbrev pub endpoint_url : EndpointDefinition → String
  endpoint_url e =
      platform.url_string https_scheme (e.host <> (":" <> platform.itoa e.port)) e.base_path

  -- what follows the loop over the endpoints: nothing without an address
  unfoldable pub oauth_scheme :
      OAuthPluginConfig → Option EndpointDefinition → Exec platform.SpecProcessor (Unit {0})
  unfolding oauth_flows
  oauth_scheme config none = pure tt
  oauth_scheme config (some e) = add_security_schemes (
      oauth (
        oauth_flows config (scopes_loop config.scopes []) (endpoint_url e <> "/oauth2/token")
          (endpoint_url e <> "/oauth2/authorize")))

  unfoldable pub oauth_security :
      List EndpointDefinition → Configuration → Exec platform.SpecProcessor (Unit {0})
  unfolding oauth_scheme first_https
  oauth_security endpoints config = elim (new_oauth_plugin_config_from_map json config) [
    | err e ↦ pure tt
    | ok oauth_config ↦ oauth_scheme oauth_config (first_https endpoints)
  ]

  -- the switch on the plugin's name
  unfoldable pub plugin_scheme :
      List EndpointDefinition → String → Option Plugin → Exec platform.SpecProcessor (Unit {0})
  unfolding api_key_security oauth_security
  plugin_scheme endpoints k plugin =
      if k == basic_auth_plugin
      then add_security_schemes http_basic
      else if k == key_auth_plugin
      then (do p ← load plugin; api_key_security p.config)
      else if k == oauth_plugin
      then (do p ← load plugin; oauth_security endpoints p.config)
      else pure tt

  -- `spec.(apic.OasSpecProcessor)`
  abbrev pub oas_spec : Exec platform.SpecProcessor (Unit {0})
  oas_spec p = if platform.is_oas p then (ret tt, p) else (panic, p)

  abbrev pub strip_spec_auth : Exec platform.SpecProcessor (Unit {0})
  strip_spec_auth p = (ret tt, platform.strip_spec_auth p)

  abbrev pub spec_bytes : Exec platform.SpecProcessor String
  spec_bytes p = (ret (platform.get_spec_bytes p), p)

  abbrev pub has_oas_type : platform.SpecProcessor → Bool
  has_oas_type p =
      if platform.get_resource_type p == platform.oas2
      then true
      else platform.get_resource_type p == platform.oas3

  module _ (names : Names) where
    -- The loop over the plugins, listed in the order in which range visits the map: the definitions it
    -- collects, and the schemes it adds. Agent.Service gives it the order as a parameter.
    unfoldable pub plugins_loop :
        String
        → List EndpointDefinition
        → Dict (Option Plugin)
        → List String
        → Exec platform.SpecProcessor (List String)
    unfolding plugin_scheme kong_to_crd add_crd
    plugins_loop workspace endpoints [] crds = pure crds
    plugins_loop workspace endpoints ((k, plugin) ∷ rest) crds = do
      done ← plugin_scheme endpoints k plugin
      plugins_loop workspace endpoints rest (add_crd workspace (kong_to_crd names k) crds)

    -- the part for OAS specifications
    unfoldable pub oas_security :
        String → Dict (Option Plugin) → KongApi → Exec platform.SpecProcessor KongApi
    unfolding plugins_loop
    oas_security workspace api_plugins ka = do
      is_oas ← oas_spec
      stripped ← strip_spec_auth
      crds ← plugins_loop workspace ka.endpoints api_plugins []
      bytes ← spec_bytes
      pure (record ka { ard = names.api_key_ard; crds = crds; spec = bytes })

    unfoldable pub process_spec_security :
        Context → Dict (Option Plugin) → KongApi → Exec platform.SpecProcessor KongApi
    unfolding oas_security
    process_spec_security ctx api_plugins ka p =
        if has_oas_type p
        then oas_security (get_string_value_from_ctx ctx context_workspace) api_plugins ka p
        else pure ka p
