-- ===== src/Subscription/Credential/Builder.antt =====
-- pkg/discovery/subscription/credential/builder.go: the credentials that are sent to Kong. A random
-- UUID is drawn where an empty text is given.
use agents_kong.Prelude.{ℕ, String, Option, none, some, List, [], ◌==◌, if◌then◌else◌}
use agents_kong.Prelude.Exec.{Exec, pure, ◌>>=◌}
use agents_kong.Kong.Klib.{Consumer, KeyAuth, BasicAuth, Oauth2Credential}

pub record KongCredentialBuilder : Type 0 where
  pub consumer : Option Consumer
  pub id : Option String
  pub name : Option String
  pub created_at : Option ℕ
  pub auth_key : Option String
  pub consumer_tags : List String
  pub username : Option String
  pub password : Option String
  pub client_id : Option String
  pub client_secret : Option String
  pub client_type : Option String
  pub redirect_uris : List String

abbrev pub new_kong_credential_builder : KongCredentialBuilder
new_kong_credential_builder = record {
  consumer = none;
  id = none;
  name = none;
  created_at = none;
  auth_key = none;
  consumer_tags = [];
  username = none;
  password = none;
  client_id = none;
  client_secret = none;
  client_type = none;
  redirect_uris = [];
}

abbrev pub with_consumer_tags : List String → KongCredentialBuilder → KongCredentialBuilder
with_consumer_tags tags b = record b { consumer_tags = tags }

module _ {S : Type 0} (new_uuid : Exec S String) where
  -- the text, or a random one
  unfoldable pub given_or_random : String → Exec S String
  given_or_random text = if text == "" then new_uuid else pure text

  unfoldable pub with_name : String → KongCredentialBuilder → Exec S KongCredentialBuilder
  unfolding given_or_random
  with_name name b = do chosen ← given_or_random name; pure (record b { name = some chosen })

  unfoldable pub with_auth_key : String → KongCredentialBuilder → Exec S KongCredentialBuilder
  unfolding given_or_random
  with_auth_key key b = do chosen ← given_or_random key; pure (record b { auth_key = some chosen })

  unfoldable pub with_username : String → KongCredentialBuilder → Exec S KongCredentialBuilder
  unfolding given_or_random
  with_username username b = do
    chosen ← given_or_random username
    pure (record b { username = some chosen })

  unfoldable pub with_password : String → KongCredentialBuilder → Exec S KongCredentialBuilder
  unfolding given_or_random
  with_password password b = do
    chosen ← given_or_random password
    pure (record b { password = some chosen })

  unfoldable pub with_client_id : String → KongCredentialBuilder → Exec S KongCredentialBuilder
  unfolding given_or_random
  with_client_id client_id b = do
    chosen ← given_or_random client_id
    pure (record b { client_id = some chosen })

  unfoldable pub with_client_secret : String → KongCredentialBuilder → Exec S KongCredentialBuilder
  unfolding given_or_random
  with_client_secret secret b = do
    chosen ← given_or_random secret
    pure (record b { client_secret = some chosen })

abbrev pub to_oauth2 : KongCredentialBuilder → Oauth2Credential
to_oauth2 b = record {
  consumer = b.consumer;
  name = b.name;
  id = b.id;
  created_at = b.created_at;
  tags = b.consumer_tags;
  client_id = b.client_id;
  client_secret = b.client_secret;
  redirect_uris = b.redirect_uris;
  client_type = b.client_type;
}

abbrev pub to_basic_auth : KongCredentialBuilder → BasicAuth
to_basic_auth b = record {
  consumer = b.consumer;
  id = b.id;
  created_at = b.created_at;
  tags = b.consumer_tags;
  username = b.username;
  password = b.password;
}

abbrev pub to_key_auth : KongCredentialBuilder → KeyAuth
to_key_auth b = record {
  consumer = b.consumer;
  id = b.id;
  created_at = b.created_at;
  key = b.auth_key;
  tags = b.consumer_tags;
}
