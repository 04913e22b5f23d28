-- ===== src/Common.antt =====
-- pkg/common/common.go: the attribute names, the context values and the workspace prefix.
use agents_kong.Prelude.{String, Option, none, some, List, [], ◌∷◌, ◌==◌, if◌then◌else◌}
use agents_kong.Prelude.Text.{◌<>◌}

abbrev pub attr_workspace_name : String
attr_workspace_name = "workspaceName"

abbrev pub attr_service_id : String
attr_service_id = "serviceID"

abbrev pub attr_route_id : String
attr_route_id = "routeID"

abbrev pub attr_checksum : String
attr_checksum = "checksum"

abbrev pub attr_app_id : String
attr_app_id = "kongApplicationId"

abbrev pub attr_credential_id : String
attr_credential_id = "kongCredentialID"

abbrev pub attr_cred_updater : String
attr_cred_updater = "kongCredentialUpdate"

abbrev pub acl_plugin : String
acl_plugin = "acl"

abbrev pub rate_limiting_plugin : String
rate_limiting_plugin = "rate-limiting"

abbrev pub default_workspace : String
default_workspace = "default"

abbrev pub cors_field : String
cors_field = "cors"

abbrev pub redirect_urls_field : String
redirect_urls_field = "redirectURLs"

abbrev pub oauth_server_field : String
oauth_server_field = "oauthServer"

abbrev pub application_type_field : String
application_type_field = "applicationType"

-- A value of Go's `interface{}` in a context: the program stores strings and integers.
pub data CtxValue : Type 0 where
  text : String → CtxValue
  other : CtxValue

-- A context as the values stored in it, the innermost first.
abbrev pub Context : Type 0
Context = List (String × CtxValue)

abbrev pub background : Context
background = []

abbrev pub with_value : Context → String → CtxValue → Context
with_value ctx key v = (key, v) ∷ ctx

abbrev pub ctx_value : Context → String → Option CtxValue
ctx_value [] key = none
ctx_value ((k, v) ∷ ctx) key = if k == key then some v else ctx_value ctx key

abbrev pub context_workspace : String
context_workspace = "workspace"

-- the type assertion `ctxVal.(string)`
abbrev as_string : Option CtxValue → String
as_string (some (text s)) = s
as_string _ = ""

unfoldable pub get_string_value_from_ctx : Context → String → String
get_string_value_from_ctx ctx key = as_string (ctx_value ctx key)

unfoldable pub wks_prefix_name : String → String → String
wks_prefix_name workspace name = workspace <> ("-" <> name)
