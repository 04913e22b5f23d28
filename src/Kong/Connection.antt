-- ===== src/Kong/Connection.antt =====
-- pkg/discovery/kong/kongclient.go: the headers and the fields of the client, and its listings.
use agents_kong.Prelude.{String, not, Option, List, [], ◌==◌, if◌then◌else◌}
use agents_kong.Prelude.Text.{◌<>◌}
use agents_kong.Prelude.Dict.{Dict}
use agents_kong.Prelude.Go.{Result, ok, err}
use agents_kong.Prelude.Exec.{Call, Exec, call, load, ◌>>=◌}
use agents_kong.Common.{Context}
use agents_kong.Config.{AuthConfig, KongGatewayConfig}
use agents_kong.Kong.Klib.{Plugin, Route, Service}
use agents_kong.Kong.Client.{KongClient, create_workspace_clients, get_workspace_client}

-- `base64` is base64.StdEncoding.EncodeToString, `set` is http.Header's Set: it puts the name of the
-- header in its canonical form.
module _ (base64 : String → String) (set : String → String → Dict String → Dict String) where
  abbrev pub basic_auth : String → String → String
  basic_auth username password = base64 (username <> (":" <> password))

  unfoldable pub api_key_header : AuthConfig → Dict String → Dict String
  api_key_header auth headers =
      if not (auth.api_key.value == "")
      then set auth.api_key.header auth.api_key.value headers
      else headers

  unfoldable pub basic_auth_header : AuthConfig → Dict String → Dict String
  basic_auth_header auth headers =
      if not (auth.basic_auth.username == "")
      then set "Authorization"
          ("Basic " <> basic_auth auth.basic_auth.username auth.basic_auth.password) headers
      else headers

  unfoldable pub client_headers : {Tls : Type 0} → KongGatewayConfig Tls → Dict String
  unfolding api_key_header basic_auth_header
  client_headers config =
      set "Host" config.proxy.host
        (basic_auth_header config.admin.auth (api_key_header config.admin.auth []))

  -- The client with the headers that its requests have. `new_client` is klib.NewClient with them.
  unfoldable pub new_kong_client :
      {Tls : Type 0}
      → (Dict String → String → Option String)
      → KongGatewayConfig Tls
      → Result (KongClient × Dict String)
  unfolding client_headers create_workspace_clients
  new_kong_client new_client config =
      let headers = client_headers config in
      elim (create_workspace_clients (new_client headers) config.admin.url config.workspaces) [
        | err e ↦ err e
        | ok clients ↦ ok (
          record {
            workspace_clients = clients;
            kong_admin_endpoint = config.admin.url;
            spec_url_paths = config.spec.url_paths;
            spec_local_path = config.spec.local_path;
            dev_portal_enabled = config.spec.dev_portal_enabled;
            create_unstructured_api = config.spec.create_unstructured_api;
          },
          headers,
        )
      ]

-- The listings of go-kong, by the workspace of the client that makes the call.
pub record Listings : Type 1 where
  pub State : Type 0
  pub services_list_all : String → Call State (List Service)
  pub routes_list_for_service : String → String → Call State (List Route)
  pub plugins_list_all : String → Call State (List Plugin)

module _ (listings : Listings) (k : KongClient) where
  -- A workspace without a client is a nil pointer, which is followed.
  unfoldable pub list_services : Context → Exec listings.State (Result (List Service))
  unfolding get_workspace_client
  list_services ctx = do
    client ← load (get_workspace_client k ctx)
    call (listings.services_list_all client.workspace)

  unfoldable pub list_routes_for_service :
      Context → String → Exec listings.State (Result (List Route))
  unfolding get_workspace_client
  list_routes_for_service ctx service_id = do
    client ← load (get_workspace_client k ctx)
    call (listings.routes_list_for_service client.workspace service_id)

  -- GetKongPlugins and the call of ListAll on what it returns
  unfoldable pub list_kong_plugins : Context → Exec listings.State (Result (List Plugin))
  unfolding get_workspace_client
  list_kong_plugins ctx = do
    client ← load (get_workspace_client k ctx)
    call (listings.plugins_list_all client.workspace)
