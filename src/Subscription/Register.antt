-- ===== src/Subscription/Register.antt =====
-- pkg/discovery/subscription/register.go: the definitions of access and credential requests that are
-- registered with Central for each workspace.
use agents_kong.Prelude.{String, Bool, true, false, List, [], ◌∷◌}
use agents_kong.Prelude.Exec.{Call, Exec, pure, call, ◌>>=◌}
use agents_kong.Common.{cors_field, redirect_urls_field, application_type_field, wks_prefix_name}
use agents_kong.Subscription.Sdk.{Names}

-- What is set on a SchemaPropertyBuilder: a string of the listed values, or an array of strings with
-- the name of the item.
pub data PropertyKind : Type 0 where
  string_enum : List String → PropertyKind
  string_array : String → PropertyKind

pub record Property : Type 0 where
  pub name : String
  pub label : String
  pub required : Bool
  pub kind : PropertyKind

-- The builder of a request definition: package agent has one for each authentication.
pub data Flavour : Type 0 where
  oauth : Flavour
  basic_auth : Flavour
  api_key : Flavour

-- A definition that is registered, with what is set on its builder. The access request of OAuth is
-- the one of NewAccessRequestBuilder, which has no authentication.
pub data Registration : Type 0 where
  access_request : Flavour → String → Registration
  credential_request : Flavour → List Property → Bool → Bool → String → Registration

abbrev pub oauth2_name : Names → String
oauth2_name names = names.oauth_secret_crd

abbrev pub http_basic_name : Names → String
http_basic_name names = names.basic_auth_ard

abbrev pub api_key_name : Names → String
api_key_name names = names.api_key_ard

abbrev pub get_cred_types : List String
get_cred_types = "confidential" ∷ "public" ∷ []

abbrev pub auth_redirect_schema_property : Property
auth_redirect_schema_property = record {
  name = redirect_urls_field;
  label = "Redirect URLs";
  required = false;
  kind = string_array "URL";
}

abbrev pub cors_schema_property : Property
cors_schema_property = record {
  name = cors_field;
  label = "Javascript Origins";
  required = false;
  kind = string_array "Origins";
}

abbrev pub application_type_property : Property
application_type_property = record {
  name = application_type_field;
  label = "Application Type";
  required = true;
  kind = string_enum get_cred_types;
}

-- `register` is the builders' Register. Its errors are only logged.
module _ (names : Names) {S : Type 0} (register : Registration → Call S (Unit {0})) where
  unfoldable pub register_oauth2 : String → Exec S (Unit {0})
  register_oauth2 workspace = do
    access ← call (register (access_request oauth (oauth2_name names)))
    credential ← call (
        register (
          credential_request oauth
            (cors_schema_property ∷ application_type_property ∷ auth_redirect_schema_property ∷ [])
            true true (wks_prefix_name workspace (oauth2_name names))))
    pure tt

  unfoldable pub register_basic_auth : String → Exec S (Unit {0})
  register_basic_auth workspace = do
    access ← call (register (access_request basic_auth (http_basic_name names)))
    credential ← call (
        register (
          credential_request basic_auth (cors_schema_property ∷ []) true false
            (wks_prefix_name workspace (http_basic_name names))))
    pure tt

  unfoldable pub register_key_auth : String → Exec S (Unit {0})
  register_key_auth workspace = do
    access ← call (register (access_request api_key (api_key_name names)))
    credential ← call (
        register (
          credential_request api_key (cors_schema_property ∷ []) true false
            (wks_prefix_name workspace (api_key_name names))))
    pure tt
