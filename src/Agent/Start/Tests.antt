-- ===== src/Agent/Start/Tests.antt =====
-- An agent that starts without a workspace, and what it registers.
use agents_kong.Prelude.{
  String, ◌≡◌, refl, ◌++◌, false, none, some, List, [], ◌∷◌, inl, inr, All, Any,
}
use agents_kong.Prelude.Go.{ok, err, ret}
use agents_kong.Prelude.Exec.{pure}
use agents_kong.Common.{get_string_value_from_ctx, wks_prefix_name}
use agents_kong.Config.{KongGatewayConfig}
use agents_kong.Kong.Klib.{Plugin}
use agents_kong.Kong.AuthPlugins.{new_key_auth_plugin_config_from_map}
use agents_kong.Subscription.Samples.{sample_names}
use agents_kong.Subscription.Register.{Registration}
use agents_kong.Subscription.Provisioner.{KongClient, new_provisioner}
use agents_kong.Agent.Sdk.{KongApi, api_key, header}
use agents_kong.Agent.Samples.{platform, json, proxy, service, pets_route, key_auth}
use agents_kong.Agent.GlobalAcl.{verify_acl_plugin}
use agents_kong.Agent.Security.{process_spec_security}
use agents_kong.Agent.Publish.{initial_api, new_kong_api, service_body_builder}
use agents_kong.Agent.Registered.{IsCredentialRequest, asked-registered}
use agents_kong.Agent.Discovery.{workspace_context}
use agents_kong.Agent.Start.{AgentClient, Agent, Registry, workspaces_or_default, new_agent}
use agents_kong.Agent.Start.Checked.{HasGlobalAcl, new_agent-HasGlobalAcl}

-- The state is what was registered. The methods for requests are not called here.
abbrev requests : KongClient (List Registration)
requests = record {
  access = record {
    create_consumer = λ ctx id name. pure (err "");
    add_consumer_acl = λ ctx id. pure none;
    add_route_acl = λ ctx route id. pure none;
    remove_route_acl = λ ctx route id. pure none;
    add_quota = λ ctx route id interval limit. pure none;
  };
  credentials = record {
    delete_oauth2 = λ ctx id client. pure none;
    delete_http_basic = λ ctx id user. pure none;
    delete_auth_key = λ ctx id key. pure none;
    create_http_basic = λ ctx id auth. pure (err "");
    create_oauth2 = λ ctx id auth. pure (err "");
    create_auth_key = λ ctx id auth. pure (err "");
    new_uuid = pure "uuid";
  };
  delete_consumer = λ ctx id. pure none;
}

abbrev global_acl : Plugin
global_acl = record key_auth { name = some "acl" }

abbrev client : AgentClient (List Registration)
client = record { requests = requests; plugins_list_all = λ ctx s. (ret (ok (global_acl ∷ [])), s) }

abbrev registry : Registry (List Registration)
registry = record {
  Filter = String;
  new_filter = λ text. ok text;
  register_provisioner = λ provisioner s. s;
  register = λ r s. (ok tt, s ++ (r ∷ []));
}

abbrev config : KongGatewayConfig Unit
config = record {
  workspaces = [];
  admin = record {
    url = "http://kong:8001";
    auth = record {
      api_key = record { header = ""; value = "" };
      basic_auth = record { username = ""; password = "" };
    };
    tls = tt;
  };
  proxy = proxy;
  spec = record {
    url_paths = [];
    local_path = "";
    dev_portal_enabled = false;
    filter = "";
    create_unstructured_api = false;
  };
  acl = record { disable = false };
}

abbrev started : Agent (List Registration) String
started = record { workspaces = "default" ∷ []; client = client; filter = "" }

abbrev after : List Registration
after = (new_agent sample_names registry "env" config (ok client) []).1

starts : new_agent sample_names registry "env" config (ok client) [] ≡ (ret (ok started), after)
unfolding new_agent verify_acl_plugin
starts = refl

new_agent-HasGlobalAcl_example :
    All (λ workspace. HasGlobalAcl (ok (global_acl ∷ []))) (workspaces_or_default [])
new_agent-HasGlobalAcl_example =
    new_agent-HasGlobalAcl client (λ ctx. ok (global_acl ∷ [])) (λ ctx s. refl)
      (λ ctx. ((λ e. cc, λ e. cc), tt)) sample_names registry "env" config [] after started refl
      starts

abbrev api : KongApi
api = record (initial_api platform "s1" "pets" "pets.local" "list-pets" "r1" [] []) {
  ard = "api-key";
  crds = "team-api-key" ∷ [];
  spec = "secured";
}

made :
    new_kong_api platform json sample_names
      (workspace_context "team")
      pets_route
      service
      []
      (("key-auth", some key_auth) ∷ [])
      []
    ≡ (ret api, api_key "apikey" header ∷ [])
unfolding new_kong_api process_spec_security new_key_auth_plugin_config_from_map
    get_string_value_from_ctx wks_prefix_name
made = refl

asked-registered_example :
    Any
      (IsCredentialRequest "team-api-key")
      (new_provisioner sample_names registry.register registry.register_provisioner requests "env"
        ("dev" ∷ "team" ∷ [])
        []
        []).1
unfolding service_body_builder
asked-registered_example =
    asked-registered sample_names refl refl platform json registry.register (λ s. s) (λ r s. refl)
      registry.register_provisioner requests "env" ("dev" ∷ "team" ∷ []) [] [] "team" pets_route
      service [] (("key-auth", some key_auth) ∷ []) [] (api_key "apikey" header ∷ []) api
      "team-api-key" (inr (inl refl)) made (inl refl)
