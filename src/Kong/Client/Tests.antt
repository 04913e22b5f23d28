-- ===== src/Kong/Client/Tests.antt =====
-- The clients of two workspaces.
use agents_kong.Prelude.{
  String, ◌≡◌, ◌≢◌, refl, false, none, some, [], ◌∷◌, inl, inr, arith, eq_iff,
}
use agents_kong.Prelude.Dict.{Dict}
use agents_kong.Prelude.Go.{ok}
use agents_kong.Common.{background, with_value, text, context_workspace}
use agents_kong.Kong.Client.{Client, KongClient, create_workspace_clients, get_workspace_client}
use agents_kong.Kong.Client.Workspaces.{create_workspace_clients_serve}

abbrev unconnected : KongClient
unconnected = record {
  workspace_clients = [];
  kong_admin_endpoint = "http://kong:8001";
  spec_url_paths = [];
  spec_local_path = "";
  dev_portal_enabled = false;
  create_unstructured_api = false;
}

named : ◌≢◌ {A = String} "sales" ""
named e = ground (arith, eq_iff "sales" "")

create_workspace_clients_serve_example :
    (clients : Dict Client) × (create_workspace_clients
        (λ endpoint. none)
        "http://kong:8001"
        ("team" ∷ "sales" ∷ [])
      ≡ ok clients)
    × (get_workspace_client
          (record unconnected { workspace_clients = clients })
          (with_value background context_workspace (text "sales"))
        ≡ some (record { workspace = "sales" }))
create_workspace_clients_serve_example =
    create_workspace_clients_serve (λ endpoint. none) "http://kong:8001" unconnected
      ("team" ∷ "sales" ∷ []) "sales" refl named (inr (inl refl))
