-- ===== src/Subscription/Credential/Provision.antt =====
-- pkg/discovery/subscription/credential/credential.go: Provision and Deprovision.
use agents_kong.Prelude.{String, Option, none, some, List, [], ◌∷◌, ◌==◌, if◌then◌else◌}
use agents_kong.Prelude.Go.{Result, ok, err}
use agents_kong.Prelude.Exec.{Exec, pure, load, ◌>>=◌}
use agents_kong.Common.{
  Context, text, background, with_value, context_workspace, attr_workspace_name, attr_app_id,
  attr_credential_id, attr_cred_updater, wks_prefix_name,
}
use agents_kong.Kong.Klib.{KeyAuth, BasicAuth, Oauth2Credential}
use agents_kong.Subscription.Sdk.{Names, RequestStatus, failed, succeeded, succeeded_with}
use agents_kong.Subscription.Credential.{CredentialClient, CredRequest, parse_credential_type}
use agents_kong.Subscription.Credential.Builder.{
  KongCredentialBuilder, new_kong_credential_builder, with_consumer_tags, with_name, with_auth_key,
  with_username, with_password, with_client_id, with_client_secret, to_oauth2, to_basic_auth,
  to_key_auth,
}

-- provisioning.Credential, by the setter of its builder
pub data Credential : Type 0 where
  api_key : String → Credential
  http_basic : String → String → Credential
  oauth_id_and_secret : String → String → Credential

abbrev pub Answer : Type 0
Answer = RequestStatus × Option Credential

abbrev pub refused : String → Answer
refused message = (failed message, none)

-- rs.Success() after the three or four calls of AddProperty
abbrev pub with_properties : List (String × String) → RequestStatus
with_properties properties = record succeeded { properties = properties }

abbrev pub tagged : KongCredentialBuilder
tagged = with_consumer_tags ("amplify-agent" ∷ []) new_kong_credential_builder

abbrev pub in_workspace : String → Context
in_workspace workspace = with_value background context_workspace (text workspace)

abbrev pub deleted_status : String → String → Option String → RequestStatus
deleted_status missing deleted (some _) = succeeded_with missing
deleted_status missing deleted none = succeeded_with deleted

module _ (names : Names) {S : Type 0} (client : CredentialClient S) where
  -- what both calls answer for a key that is created
  unfoldable pub key_answer : String → Result KeyAuth → Exec S Answer
  key_answer workspace (err _) = pure (refused "Failed to create api-key credential")
  key_answer workspace (ok resp) = do
    consumer ← load resp.consumer
    consumer_id ← load consumer.id
    id ← load resp.id
    key ← load resp.key
    pure (
      with_properties (
          (attr_workspace_name, workspace)
          ∷ (attr_app_id, consumer_id)
          ∷ (attr_credential_id, id)
          ∷ []),
      some (api_key key),
    )

  unfoldable pub basic_properties : String → BasicAuth → Exec S RequestStatus
  basic_properties workspace resp = do
    consumer ← load resp.consumer
    consumer_id ← load consumer.id
    id ← load resp.id
    username ← load resp.username
    pure (
        with_properties (
          (attr_workspace_name, workspace)
          ∷ (attr_app_id, consumer_id)
          ∷ (attr_credential_id, id)
          ∷ (attr_cred_updater, username)
          ∷ []))

  unfoldable pub oauth2_answer : String → Result Oauth2Credential → Exec S Answer
  oauth2_answer workspace (err _) = pure (refused "Failed to create oauth2 credential")
  oauth2_answer workspace (ok resp) = do
    consumer ← load resp.consumer
    consumer_id ← load consumer.id
    id ← load resp.id
    client_id ← load resp.client_id
    client_secret ← load resp.client_secret
    pure (
      with_properties (
          (attr_workspace_name, workspace)
          ∷ (attr_app_id, consumer_id)
          ∷ (attr_credential_id, id)
          ∷ (attr_cred_updater, client_id)
          ∷ []),
      some (oauth_id_and_secret client_id client_secret),
    )

  unfoldable pub provision_key : Context → String → String → Exec S Answer
  unfolding key_answer with_auth_key
  provision_key ctx workspace consumer_id = do
    b ← with_auth_key client.new_uuid "" tagged
    created ← client.create_auth_key ctx consumer_id (to_key_auth b)
    key_answer workspace created

  unfoldable pub basic_answer : String → String → String → Result BasicAuth → Exec S Answer
  unfolding basic_properties
  basic_answer workspace user pass (err _) = pure (refused "Failed to create basic auth credential")
  basic_answer workspace user pass (ok resp) = do
    status ← basic_properties workspace resp
    pure (status, some (http_basic user pass))

  unfoldable pub provision_basic : Context → String → String → Exec S Answer
  unfolding basic_answer with_username with_password
  provision_basic ctx workspace consumer_id = do
    user ← client.new_uuid
    pass ← client.new_uuid
    b ← with_username client.new_uuid user tagged
    c ← with_password client.new_uuid pass b
    created ← client.create_http_basic ctx consumer_id (to_basic_auth c)
    basic_answer workspace user pass created

  unfoldable pub provision_oauth2 : Context → String → String → Exec S Answer
  unfolding oauth2_answer with_client_id with_client_secret with_name
  provision_oauth2 ctx workspace consumer_id = do
    b ← with_client_id client.new_uuid "" tagged
    c ← with_client_secret client.new_uuid "" b
    d ← with_name client.new_uuid "" c
    created ← client.create_oauth2 ctx consumer_id (to_oauth2 d)
    oauth2_answer workspace created

  -- The last case is rs.Failed() without a message.
  unfoldable pub provision : CredRequest → Exec S Answer
  unfolding parse_credential_type provision_key provision_basic provision_oauth2
  provision request =
      let (workspace, credential_type) = parse_credential_type names request.credential_type in
      let consumer_id = request.application_details_value (wks_prefix_name workspace attr_app_id) in
      if workspace == ""
      then pure (refused "workspace not found")
      else if credential_type == names.api_key_ard
      then provision_key (in_workspace workspace) workspace consumer_id
      else if credential_type == names.basic_auth_ard
      then provision_basic (in_workspace workspace) workspace consumer_id
      else if credential_type == names.oauth_secret_crd
      then provision_oauth2 (in_workspace workspace) workspace consumer_id
      else pure (refused "")

  unfoldable pub delete_typed : Context → String → String → String → Exec S RequestStatus
  delete_typed ctx credential_type consumer_id credential_id =
      if credential_type == names.api_key_ard
      then (do
        deleted ← client.delete_auth_key ctx consumer_id credential_id
        pure (
            deleted_status "API Key credential does not exist or it has already been deleted"
              "API Key successfully deleted." deleted))
      else if credential_type == names.basic_auth_ard
      then (do
        deleted ← client.delete_http_basic ctx consumer_id credential_id
        pure (
            deleted_status "Basic auth credential does not exist or it has already been deleted"
              "Basic auth credential successfully deleted." deleted))
      else if credential_type == names.oauth_secret_crd
      then (do
        deleted ← client.delete_oauth2 ctx consumer_id credential_id
        pure (
            deleted_status "OAuth2 credential does not exist or it has already been deleted"
              "OAuth2 credential successfully deleted." deleted))
      else pure (failed "Failed to identify credential type")

  unfoldable pub deprovision : CredRequest → Exec S RequestStatus
  unfolding parse_credential_type delete_typed
  deprovision request =
      let (workspace, credential_type) = parse_credential_type names request.credential_type in
      let consumer_id = request.credential_details_value attr_app_id in
      let credential_id = request.credential_details_value attr_credential_id in
      if workspace == ""
      then pure (failed "workspace not found")
      else if consumer_id == ""
      then pure (failed "managed application ID not found")
      else if credential_id == ""
      then pure (failed "CredentialID cannot be empty")
      else delete_typed (in_workspace workspace) credential_type consumer_id credential_id
