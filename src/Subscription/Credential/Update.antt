-- ===== src/Subscription/Credential/Update.antt =====
-- pkg/discovery/subscription/credential/credential.go: Update deletes the credential and creates
-- another. The calls are made in the background context.
use agents_kong.Prelude.{String, Option, none, some, ◌==◌, if◌then◌else◌}
use agents_kong.Prelude.Text.{◌<>◌}
use agents_kong.Prelude.Go.{Result, ok, err}
use agents_kong.Prelude.Exec.{Exec, pure, load, ◌>>=◌}
use agents_kong.Common.{background, attr_app_id, attr_credential_id, attr_cred_updater}
use agents_kong.Kong.Klib.{BasicAuth}
use agents_kong.Subscription.Sdk.{Names, RequestStatus}
use agents_kong.Subscription.Credential.{CredentialClient, CredRequest, parse_credential_type}
use agents_kong.Subscription.Credential.Builder.{
  with_name, with_auth_key, with_username, with_password, with_client_id, with_client_secret,
  to_oauth2, to_basic_auth, to_key_auth,
}
use agents_kong.Subscription.Credential.Provision.{
  http_basic, Answer, refused, tagged, key_answer, basic_properties, oauth2_answer,
}

-- The text has the two names the other way round.
abbrev pub could_not_delete : String → String → String
could_not_delete consumer_id credential_id =
    "Could not delete credential " <> (consumer_id <> (" for consumer " <> credential_id))

module _ (names : Names) {S : Type 0} (client : CredentialClient S) where
  -- what follows the deletion of a key
  unfoldable pub renew_key : String → String → String → Option String → Exec S Answer
  unfolding key_answer with_auth_key
  renew_key workspace consumer_id credential_id (some _) =
      pure (refused (could_not_delete consumer_id credential_id))
  renew_key workspace consumer_id credential_id none = do
    b ← with_auth_key client.new_uuid "" tagged
    created ← client.create_auth_key background consumer_id (to_key_auth b)
    key_answer names client workspace created

  unfoldable pub updated_answer : BasicAuth → RequestStatus → Exec S Answer
  updated_answer resp status = do
    username ← load resp.username
    password ← load resp.password
    pure (status, some (http_basic username password))

  unfoldable pub updated_basic : String → Result BasicAuth → Exec S Answer
  unfolding basic_properties updated_answer
  updated_basic workspace (err _) = pure (refused "Failed to create basic auth credential")
  updated_basic workspace (ok resp) = do
    status ← basic_properties names client workspace resp
    updated_answer resp status

  unfoldable pub renew_basic : String → String → String → String → Option String → Exec S Answer
  unfolding updated_basic with_username with_password
  renew_basic workspace consumer_id credential_id key (some _) =
      pure (refused (could_not_delete consumer_id credential_id))
  renew_basic workspace consumer_id credential_id key none = do
    b ← with_username client.new_uuid key tagged
    c ← with_password client.new_uuid "" b
    created ← client.create_http_basic background consumer_id (to_basic_auth c)
    updated_basic workspace created

  unfoldable pub renew_oauth2 : String → String → String → String → Option String → Exec S Answer
  unfolding oauth2_answer with_client_id with_client_secret with_name
  renew_oauth2 workspace consumer_id credential_id key (some _) =
      pure (refused (could_not_delete consumer_id credential_id))
  renew_oauth2 workspace consumer_id credential_id key none = do
    b ← with_client_id client.new_uuid key tagged
    c ← with_client_secret client.new_uuid "" b
    d ← with_name client.new_uuid "" c
    created ← client.create_oauth2 background consumer_id (to_oauth2 d)
    oauth2_answer names client workspace created

  unfoldable pub update_typed : String → String → String → String → String → Exec S Answer
  unfolding renew_key renew_basic renew_oauth2
  update_typed workspace credential_type consumer_id credential_id key =
      if credential_type == names.api_key_ard
      then (do
        deleted ← client.delete_auth_key background consumer_id credential_id
        renew_key workspace consumer_id credential_id deleted)
      else if credential_type == names.basic_auth_ard
      then (do
        deleted ← client.delete_http_basic background consumer_id credential_id
        renew_basic workspace consumer_id credential_id key deleted)
      else if credential_type == names.oauth_secret_crd
      then (do
        deleted ← client.delete_oauth2 background consumer_id credential_id
        renew_oauth2 workspace consumer_id credential_id key deleted)
      else pure (refused "Failed to identify credential type")

  -- The second guard tests the workspace again, not the consumer's ID.
  unfoldable pub update : CredRequest → Exec S Answer
  unfolding parse_credential_type update_typed
  update request =
      let (workspace, credential_type) = parse_credential_type names request.credential_type in
      let consumer_id = request.credential_details_value attr_app_id in
      let credential_id = request.credential_details_value attr_credential_id in
      let key = request.credential_details_value attr_cred_updater in
      if workspace == ""
      then pure (refused "workspace not found")
      else if workspace == ""
      then pure (refused "managed application ID not found")
      else if credential_id == ""
      then pure (refused "kongCredentialId cannot be empty")
      else update_typed workspace credential_type consumer_id credential_id key
