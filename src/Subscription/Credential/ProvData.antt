-- ===== src/Subscription/Credential/ProvData.antt =====
-- pkg/discovery/subscription/credential/builder.go: the data of a request as a builder reads them.
-- The program does not call WithProvData, WithConsumer and WithID.
mod Tests
use agents_kong.Prelude.{String, Option, none, some, List, [], ◌∷◌, ◌++◌, is_empty, if◌then◌else◌}
use agents_kong.Prelude.Dict.{Dict, lookup}
use agents_kong.Prelude.Go.{Ret, ret, panic, ◌>>=◌}
use agents_kong.Common.{cors_field, redirect_urls_field, oauth_server_field, application_type_field}
use agents_kong.Kong.Klib.{Consumer}
use agents_kong.Subscription.Credential.Builder.{KongCredentialBuilder}

-- An element of a Go slice of `interface{}`: the code asks whether it is a string.
pub data ProvItem : Type 0 where
  string : String → ProvItem
  not_string : ProvItem

-- A value of the request's data. A type assertion to another type panics.
pub data ProvValue : Type 0 where
  nil : ProvValue
  text : String → ProvValue
  items : List ProvItem → ProvValue
  other : ProvValue

pub record CredentialMetaData : Type 0 where
  pub cors : List String
  pub redirect_urls : List String
  pub oauth_server_name : String
  pub app_type : String
  pub audience : String

abbrev pub with_consumer : Consumer → KongCredentialBuilder → KongCredentialBuilder
with_consumer c b = record b { consumer = some c }

abbrev pub with_id : String → KongCredentialBuilder → KongCredentialBuilder
with_id id b = record b { id = some id }

-- `c.(string)` of each element, appended to what is there
unfoldable pub items_loop : List ProvItem → List String → Ret (List String)
items_loop [] found = ret found
items_loop (string s ∷ rest) found = items_loop rest (found ++ (s ∷ []))
items_loop (not_string ∷ rest) found = panic

-- `data.([]interface{})`, or the default if there is no value or it is nil
unfoldable pub list_field : List String → Option ProvValue → Ret (List String)
unfolding items_loop
list_field default none = ret default
list_field default (some nil) = ret default
list_field default (some (items l)) = items_loop l []
list_field default (some (text s)) = panic
list_field default (some other) = panic

-- `data.(string)`, or the default
unfoldable pub string_field : String → Option ProvValue → Ret String
string_field default none = ret default
string_field default (some nil) = ret default
string_field default (some (text s)) = ret s
string_field default (some (items l)) = panic
string_field default (some other) = panic

unfoldable pub get_cred_prov_data : Dict ProvValue → Ret CredentialMetaData
unfolding list_field string_field
get_cred_prov_data cred_data = do
  cors ← list_field ("*" ∷ []) (lookup cors_field cred_data)
  redirect_urls ← list_field [] (lookup redirect_urls_field cred_data)
  oauth_server_name ← string_field "" (lookup oauth_server_field cred_data)
  app_type ← string_field "Confidential" (lookup application_type_field cred_data)
  ret (record {
    cors = cors;
    redirect_urls = redirect_urls;
    oauth_server_name = oauth_server_name;
    app_type = app_type;
    audience = "";
  })

-- The redirect URIs are set from the origins.
unfoldable pub with_meta_data : CredentialMetaData → KongCredentialBuilder → KongCredentialBuilder
with_meta_data p_data b =
    let typed : KongCredentialBuilder = record b { client_type = some p_data.app_type } in
    if is_empty p_data.cors then typed else record typed { redirect_uris = p_data.cors }

unfoldable pub with_prov_data : Dict ProvValue → KongCredentialBuilder → Ret KongCredentialBuilder
unfolding get_cred_prov_data with_meta_data
with_prov_data prov_data b = do p_data ← get_cred_prov_data prov_data; ret (with_meta_data p_data b)
