-- ===== src/Kong/Client.antt =====
-- The client of pkg/discovery/kong/kongclient.go: its fields, and one go-kong client a workspace.
mod Workspaces
mod Tests
use agents_kong.Prelude.{
  String, Bool, not, Option, none, some, List, [], ◌∷◌, ◌==◌, is_empty, if◌then◌else◌,
}
use agents_kong.Prelude.Dict.{Dict, lookup, insert}
use agents_kong.Prelude.Go.{Result, ok, err}
use agents_kong.Common.{Context, context_workspace, default_workspace, get_string_value_from_ctx}

-- A go-kong client, which knows its workspace; "" is a client without one.
pub record Client : Type 0 where
  pub workspace : String

pub record KongClient : Type 0 where
  pub workspace_clients : Dict Client
  pub kong_admin_endpoint : String
  pub spec_url_paths : List String
  pub spec_local_path : String
  pub dev_portal_enabled : Bool
  pub create_unstructured_api : Bool

-- `new_client` is klib.NewClient on the endpoint: the error, if it refuses the endpoint.
module _ (new_client : String → Option String) where
  -- A client without a workspace is made first, and the workspace is set if it is not empty.
  unfoldable pub create_workspace_client : String → String → Result Client
  create_workspace_client endpoint workspace = elim (new_client endpoint) [
    | some e ↦ err e
    | none ↦ ok (record { workspace = if not (workspace == "") then workspace else "" })
  ]

  unfoldable pub clients_loop : String → List String → Dict Client → Result (Dict Client)
  clients_loop endpoint [] clients = ok clients
  clients_loop endpoint (workspace ∷ rest) clients =
      elim (create_workspace_client endpoint workspace) [
        | err e ↦ err e
        | ok client ↦ clients_loop endpoint rest (insert workspace client clients)
      ]

  -- without a workspace, a client for the default one
  unfoldable pub or_default : String → Dict Client → Result (Dict Client)
  or_default endpoint clients =
      if is_empty clients
      then (elim (create_workspace_client endpoint "") [
        | err e ↦ err e
        | ok client ↦ ok (insert default_workspace client clients)
      ])
      else ok clients

  unfoldable pub create_workspace_clients : String → List String → Result (Dict Client)
  unfolding clients_loop or_default create_workspace_client
  create_workspace_clients endpoint workspaces = elim (clients_loop endpoint workspaces []) [
    | err e ↦ err e
    | ok clients ↦ or_default endpoint clients
  ]

abbrev pub workspace_of : Context → String
workspace_of ctx =
    let workspace = get_string_value_from_ctx ctx context_workspace in
    if workspace == "" then default_workspace else workspace

-- `none` is the nil pointer of a missing key.
unfoldable pub get_workspace_client : KongClient → Context → Option Client
get_workspace_client k ctx = lookup (workspace_of ctx) k.workspace_clients
