-- ===== src/Subscription/Credential.antt =====
-- pkg/discovery/subscription/credential: the credentials of an application in Kong.
pub mod Builder
pub mod ProvData
pub mod Provision
pub mod Parsing
pub mod Update
pub mod Renewal
mod Tests
use agents_kong.Prelude.{String, Option, if◌then◌else◌}
use agents_kong.Prelude.Text.{◌<>◌, trim_suffix, contains}
use agents_kong.Prelude.Go.{Result}
use agents_kong.Prelude.Exec.{Exec}
use agents_kong.Common.{Context}
use agents_kong.Kong.Klib.{KeyAuth, BasicAuth, Oauth2Credential}
use agents_kong.Subscription.Sdk.{Names}

-- The methods of `credentialClient`, over a state; `new_uuid` is uuid.NewString.
pub record CredentialClient (S : Type 0) : Type 0 where
  pub delete_oauth2 : Context → String → String → Exec S (Option String)
  pub delete_http_basic : Context → String → String → Exec S (Option String)
  pub delete_auth_key : Context → String → String → Exec S (Option String)
  pub create_http_basic : Context → String → BasicAuth → Exec S (Result BasicAuth)
  pub create_oauth2 : Context → String → Oauth2Credential → Exec S (Result Oauth2Credential)
  pub create_auth_key : Context → String → KeyAuth → Exec S (Result KeyAuth)
  pub new_uuid : Exec S String

-- The methods of `credRequest` that are called.
pub record CredRequest : Type 0 where
  pub application_details_value : String → String
  pub credential_details_value : String → String
  pub credential_type : String

unfoldable pub parse_workspace : String → String → String
parse_workspace crd_name crd_type = trim_suffix crd_name ("-" <> crd_type)

-- The workspace and the type that a credential definition's name stands for.
unfoldable pub parse_credential_type : Names → String → String × String
unfolding parse_workspace
parse_credential_type names crd_name =
    if contains crd_name names.api_key_crd
    then (parse_workspace crd_name names.api_key_crd, names.api_key_crd)
    else if contains crd_name names.basic_auth_ard
    then (parse_workspace crd_name names.basic_auth_crd, names.basic_auth_crd)
    else if contains crd_name names.oauth_secret_crd
    then (parse_workspace crd_name names.oauth_secret_crd, names.oauth_secret_crd)
    else ("", "")
