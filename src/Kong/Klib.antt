-- ===== src/Kong/Klib.antt =====
-- The types of github.com/kong/go-kong that the program reads, with the fields that it reads. A
-- pointer is an `Option`, whose `none` is nil; Kong fills the strings of a list, so these are plain.
use agents_kong.Prelude.{ℕ, String, Bool, Option, List}
use agents_kong.Prelude.Dict.{Dict}
use agents_kong.Prelude.Int.{ℤ}
use agents_kong.Prelude.Exec.{Call}

-- A value of Go's `interface{}`, as a plugin's configuration holds it.
pub data Value : Type 0 where
  text : String → Value
  texts : List String → Value
  number : ℤ → Value
  flag : Bool → Value

abbrev pub Configuration : Type 0
Configuration = Dict Value

-- A service, route or consumer as a plugin or a credential refers to it: by its ID.
pub record Ref : Type 0 where
  pub id : Option String

pub record Plugin : Type 0 where
  pub id : Option String
  pub name : Option String
  pub enabled : Option Bool
  pub config : Configuration
  pub service : Option Ref
  pub route : Option Ref
  pub consumer : Option Ref

pub record Consumer : Type 0 where
  pub id : Option String
  pub custom_id : Option String
  pub username : Option String

pub record AclGroup : Type 0 where
  pub consumer : Option Consumer
  pub group : Option String

pub record KeyAuth : Type 0 where
  pub consumer : Option Consumer
  pub id : Option String
  pub created_at : Option ℕ
  pub key : Option String
  pub tags : List String

pub record BasicAuth : Type 0 where
  pub consumer : Option Consumer
  pub id : Option String
  pub created_at : Option ℕ
  pub tags : List String
  pub username : Option String
  pub password : Option String

pub record Oauth2Credential : Type 0 where
  pub consumer : Option Consumer
  pub name : Option String
  pub id : Option String
  pub created_at : Option ℕ
  pub tags : List String
  pub client_id : Option String
  pub client_secret : Option String
  pub redirect_uris : List String
  pub client_type : Option String

pub record Service : Type 0 where
  pub id : Option String
  pub name : Option String
  pub protocol : Option String
  pub host : Option String
  pub path : Option String
  pub tags : List String

pub record Route : Type 0 where
  pub id : Option String
  pub name : Option String
  pub hosts : List String
  pub paths : List String
  pub protocols : List String

-- The calls of the Admin API that the program makes, over an unknown state of the gateway. The first
-- argument of each is the workspace of the client that makes it.
pub record AdminApi : Type 1 where
  pub State : Type 0
  pub consumers_get : String → String → Call State Consumer
  pub consumers_create : String → Consumer → Call State Consumer
  pub consumers_delete : String → String → Call State (Unit {0})
  pub acls_create : String → Option String → AclGroup → Call State AclGroup
  pub oauth2_delete : String → String → String → Call State (Unit {0})
  pub basic_auths_delete : String → String → String → Call State (Unit {0})
  pub key_auths_delete : String → String → String → Call State (Unit {0})
  pub oauth2_create : String → String → Oauth2Credential → Call State Oauth2Credential
  pub basic_auths_create : String → String → BasicAuth → Call State BasicAuth
  pub key_auths_create : String → String → KeyAuth → Call State KeyAuth
  pub plugins_list_all : String → Call State (List Plugin)
  pub plugins_create_for_route : String → String → Plugin → Call State Plugin
  pub plugins_update_for_route : String → String → Plugin → Call State Plugin
  pub plugins_delete_for_route : String → String → Option String → Call State (Unit {0})
