-- ===== src/Subscription/Samples.antt =====
-- A concrete setting for the tests: a gateway in memory with one workspace, and the names of the SDK.
use agents_kong.Prelude.{String, ◌≡◌, refl, false, none, some, List, [], ◌∷◌}
use agents_kong.Prelude.Dict.{lookup}
use agents_kong.Prelude.Go.{ok, err}
use agents_kong.Common.{
  Context, background, with_value, text, context_workspace, get_string_value_from_ctx,
}
use agents_kong.Kong.Klib.{Plugin}
use agents_kong.Kong.Client.{KongClient, Client, get_workspace_client}
use agents_kong.Subscription.Sdk.{Names}
use agents_kong.Subscription.Access.{CentralClient}

abbrev pub sample_names : Names
sample_names = record {
  api_key_crd = "api-key";
  api_key_ard = "api-key";
  basic_auth_crd = "http-basic";
  basic_auth_ard = "http-basic";
  oauth_secret_crd = "oauth-secret";
  daily = "daily";
  weekly = "weekly";
  monthly = "monthly";
  annually = "annually";
}

abbrev pub team : Client
team = record { workspace = "team" }

abbrev pub kong : KongClient
kong = record {
  workspace_clients = ("team", team) ∷ [];
  kong_admin_endpoint = "http://kong:8001";
  spec_url_paths = [];
  spec_local_path = "";
  dev_portal_enabled = false;
  create_unstructured_api = false;
}

abbrev pub ctx : Context
ctx = with_value background context_workspace (text "team")

pub connected : get_workspace_client kong ctx ≡ some team
unfolding get_workspace_client get_string_value_from_ctx lookup
connected = refl

-- Central without any application.
abbrev pub empty_central : CentralClient (List Plugin)
empty_central = record {
  ResourceInstance = String;
  metadata_id = λ app. app;
  get_agent_details = λ app. none;
  self_link = λ name environment. name;
  get_resource = λ link s. (err "not found", s);
  create_sub_resource = λ app details s. (ok tt, s);
}
