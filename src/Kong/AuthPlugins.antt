-- ===== src/Kong/AuthPlugins.antt =====
-- pkg/discovery/kong/authplugins.go: the configurations of the authentication plugins. Each is read
-- from the plugin's map by way of its JSON.
use agents_kong.Prelude.{String, Bool, List}
use agents_kong.Prelude.Int.{ℤ}
use agents_kong.Prelude.Go.{Result, ok, err}
use agents_kong.Kong.Klib.{Configuration}

abbrev pub basic_auth_plugin : String
basic_auth_plugin = "basic-auth"

abbrev pub key_auth_plugin : String
key_auth_plugin = "key-auth"

abbrev pub oauth_plugin : String
oauth_plugin = "oauth2"

pub record OAuthPluginConfig : Type 0 where
  pub hide_credentials : Bool
  pub persistent_refresh_token : Bool
  pub provision_key : String
  pub refresh_token_ttl : ℤ
  pub token_expiration : ℤ
  pub accept_http_if_already_terminated : Bool
  pub auth_header_name : String
  pub mandatory_scope : Bool
  pub scopes : List String
  pub pkce : String
  pub reuse_refresh_token : Bool
  pub enable_password_grant : Bool
  pub enable_client_credentials : Bool
  pub global_credentials : Bool
  pub anonymous : String
  pub enable_implicit_grant : Bool
  pub enable_authorization_code : Bool

pub record KeyAuthPluginConfig : Type 0 where
  pub key_in_query : Bool
  pub key_in_header : Bool
  pub key_names : List String
  pub anonymous : String
  pub run_on_preflight : Bool
  pub hide_credentials : Bool
  pub key_in_body : Bool

pub record BasicAuthPluginConfig : Type 0 where
  pub anonymous : String
  pub hide_credentials : Bool

-- encoding/json on these types, with the tags of their fields
pub record Json : Type 0 where
  pub marshal : Configuration → Result String
  pub unmarshal_oauth : String → Result OAuthPluginConfig
  pub unmarshal_key_auth : String → Result KeyAuthPluginConfig
  pub unmarshal_basic_auth : String → Result BasicAuthPluginConfig

module _ (json : Json) where
  unfoldable pub new_oauth_plugin_config_from_map : Configuration → Result OAuthPluginConfig
  new_oauth_plugin_config_from_map map_data = elim (json.marshal map_data) [
    | err e ↦ err e
    | ok json_str ↦ json.unmarshal_oauth json_str
  ]

  unfoldable pub new_key_auth_plugin_config_from_map : Configuration → Result KeyAuthPluginConfig
  new_key_auth_plugin_config_from_map map_data = elim (json.marshal map_data) [
    | err e ↦ err e
    | ok json_str ↦ json.unmarshal_key_auth json_str
  ]

  -- The program does not call it.
  unfoldable pub new_basic_auth_plugin_config_from_map :
      Configuration → Result BasicAuthPluginConfig
  new_basic_auth_plugin_config_from_map map_data = elim (json.marshal map_data) [
    | err e ↦ err e
    | ok json_str ↦ json.unmarshal_basic_auth json_str
  ]
