-- ===== src/Kong/Consumers.antt =====
-- pkg/discovery/kong/provisioning.go: consumers and their credentials.
pub mod Behaviour
pub mod Roster
use agents_kong.Prelude.{String, Option, none, some}
use agents_kong.Prelude.Go.{Result, ok, err}
use agents_kong.Prelude.Exec.{Exec, pure, call, load, ◌>>=◌}
use agents_kong.Common.{Context}
use agents_kong.Kong.Klib.{AdminApi, Consumer, KeyAuth, BasicAuth, Oauth2Credential}
use agents_kong.Kong.Client.{KongClient, Client, get_workspace_client}

-- An error that a function returns; `none` is nil.
abbrev pub Error : Type 0
Error = Option String

abbrev pub to_error {ℓ} : {A : Type ℓ} → Result A → Error
to_error (ok a) = none
to_error (err e) = some e

module _ (K : AdminApi) (k : KongClient) where
  unfoldable pub create_consumer : Context → String → String → Exec K.State (Result Consumer)
  unfolding get_workspace_client
  create_consumer ctx id name = do
    c ← load (get_workspace_client k ctx)
    found ← call (K.consumers_get c.workspace id)
    elim found [
      | ok consumer ↦ pure (ok consumer)
      | err _ ↦ call (
          K.consumers_create c.workspace
            (record { id = none; custom_id = some id; username = some name }))
    ]

  unfoldable pub add_consumer_acl : Context → String → Exec K.State Error
  unfolding get_workspace_client
  add_consumer_acl ctx id = do
    c ← load (get_workspace_client k ctx)
    found ← call (K.consumers_get c.workspace id)
    elim found [
      | err e ↦ pure (some e)
      | ok consumer ↦ do
        created ← call (
            K.acls_create c.workspace consumer.id
              (record { consumer = some consumer; group = some id }))
        pure (to_error created)
    ]

  -- what DeleteConsumer does once the consumer is looked up
  unfoldable pub delete_found : Client → String → Result Consumer → Exec K.State Error
  delete_found c id (err e) = pure none
  delete_found c id (ok _) = do
    deleted ← call (K.consumers_delete c.workspace id)
    pure (to_error deleted)

  unfoldable pub delete_consumer : Context → String → Exec K.State Error
  unfolding delete_found
  delete_consumer ctx id = do
    c ← load (get_workspace_client k ctx)
    found ← call (K.consumers_get c.workspace id)
    delete_found c id found

  -- The six calls for credentials pass on the answer of the Admin API.
  unfoldable pub delete_oauth2 : Context → String → String → Exec K.State Error
  unfolding get_workspace_client
  delete_oauth2 ctx consumer_id client_id = do
    c ← load (get_workspace_client k ctx)
    deleted ← call (K.oauth2_delete c.workspace consumer_id client_id)
    pure (to_error deleted)

  unfoldable pub delete_http_basic : Context → String → String → Exec K.State Error
  unfolding get_workspace_client
  delete_http_basic ctx consumer_id username = do
    c ← load (get_workspace_client k ctx)
    deleted ← call (K.basic_auths_delete c.workspace consumer_id username)
    pure (to_error deleted)

  unfoldable pub delete_auth_key : Context → String → String → Exec K.State Error
  unfolding get_workspace_client
  delete_auth_key ctx consumer_id auth_key = do
    c ← load (get_workspace_client k ctx)
    deleted ← call (K.key_auths_delete c.workspace consumer_id auth_key)
    pure (to_error deleted)

  unfoldable pub create_http_basic : Context → String → BasicAuth → Exec K.State (Result BasicAuth)
  unfolding get_workspace_client
  create_http_basic ctx consumer_id basic_auth = do
    c ← load (get_workspace_client k ctx)
    call (K.basic_auths_create c.workspace consumer_id basic_auth)

  unfoldable pub create_oauth2 :
      Context → String → Oauth2Credential → Exec K.State (Result Oauth2Credential)
  unfolding get_workspace_client
  create_oauth2 ctx consumer_id oauth2 = do
    c ← load (get_workspace_client k ctx)
    call (K.oauth2_create c.workspace consumer_id oauth2)

  unfoldable pub create_auth_key : Context → String → KeyAuth → Exec K.State (Result KeyAuth)
  unfolding get_workspace_client
  create_auth_key ctx consumer_id key_auth = do
    c ← load (get_workspace_client k ctx)
    call (K.key_auths_create c.workspace consumer_id key_auth)
