-- ===== src/Kong/Acl/Tests.antt =====
-- ACLs of concrete routes in a gateway in memory.
use agents_kong.Prelude.{
  String, ◌≡◌, ◌≢◌, refl, true, false, none, some, [], ◌∷◌, arith, eq_iff, ◌+◌, ◌<◌, length, List,
}
use agents_kong.Prelude.Dict.{lookup}
use agents_kong.Prelude.Go.{ret, ok}
use agents_kong.Common.{
  acl_plugin, rate_limiting_plugin, Context, background, with_value, text, context_workspace,
  get_string_value_from_ctx,
}
use agents_kong.Kong.Klib.{Plugin}
use agents_kong.Kong.Client.{KongClient, Client, get_workspace_client}
use agents_kong.Kong.Selection.{get_specific_plugin}
use agents_kong.Prelude.Counts.{count}
use agents_kong.Kong.Acl.{acl_configuration, position, add_route_acl, remove_route_acl}
use agents_kong.Kong.Acl.Store.{same_id}
use agents_kong.Kong.Acl.Revoke.{remove_route_acl-allowed}
use agents_kong.Kong.Acl.Grant.{IsGranted, add_route_acl-IsGranted}
use agents_kong.Kong.Acl.Memory.{memory, memory_store, decode, decode-ReadsBack}

abbrev team : Client
team = record { workspace = "team" }

abbrev kong : KongClient
kong = record {
  workspace_clients = ("team", team) ∷ [];
  kong_admin_endpoint = "http://kong:8001";
  spec_url_paths = [];
  spec_local_path = "";
  dev_portal_enabled = false;
  create_unstructured_api = false;
}

abbrev ctx : Context
ctx = with_value background context_workspace (text "team")

connected : get_workspace_client kong ctx ≡ some team
unfolding get_workspace_client get_string_value_from_ctx lookup
connected = refl

abbrev acl : Plugin
acl = record {
  id = some "p1";
  name = some "acl";
  enabled = some true;
  config =
      acl_configuration
        (record { allowed_groups = "app1" ∷ []; denied_groups = []; hide_groups_header = true });
  service = none;
  route = some (record { id = some "r1" });
  consumer = none;
}

succeeds : (add_route_acl decode memory kong ctx "r1" "app2" (acl ∷ [])).0 ≡ ret none
unfolding add_route_acl get_workspace_client get_string_value_from_ctx lookup get_specific_plugin
    acl_configuration
succeeds = refl

named : ◌≢◌ {A = String} "r1" ""
named e = ground (arith, eq_iff "r1" "")

add_route_acl-IsGranted_example :
    IsGranted decode memory memory_store "team" "r1" "app2"
      (add_route_acl decode memory kong ctx "r1" "app2" (acl ∷ [])).1
add_route_acl-IsGranted_example =
    add_route_acl-IsGranted decode memory kong memory_store decode-ReadsBack ctx team connected "r1"
      "app2" named (acl ∷ []) succeeds

-- An ACL that allows two applications, the second of which is taken off.
abbrev shared_acl : Plugin
shared_acl = record acl {
  config = acl_configuration (record {
    allowed_groups = "app1" ∷ "app2" ∷ [];
    denied_groups = [];
    hide_groups_header = true;
  });
}

-- the quota of the second application on the route
abbrev quota : Plugin
quota = record shared_acl {
  id = some "p2";
  name = some "rate-limiting";
  consumer = some (record { id = some "app2" });
  config = [];
}

abbrev shared : List Plugin
shared = shared_acl ∷ quota ∷ []

listed : get_specific_plugin shared "" "r1" "" acl_plugin ≡ ret (ok shared_acl)
unfolding get_specific_plugin
listed = refl

second : position "app2" (decode shared_acl.config).allowed_groups ≡ some 1
unfolding position acl_configuration
second = refl

two : 1 < length (decode shared_acl.config).allowed_groups
unfolding acl_configuration
two = omega arith

the_plugin : {p q : Plugin} → ret (ok p) ≡ ret (ok q) → p ≡ q
the_plugin e = cc

no_quota :
    (r : Plugin)
    → get_specific_plugin shared "" "r1" "app2" rate_limiting_plugin ≡ ret (ok r)
    → same_id r.id shared_acl.id ≡ false
unfolding get_specific_plugin
no_quota r e = let found : quota ≡ r = the_plugin e in rw (← found) refl

removes : (remove_route_acl decode memory kong ctx "r1" "app2" shared).0 ≡ ret none
unfolding remove_route_acl get_workspace_client get_string_value_from_ctx lookup get_specific_plugin
    acl_configuration position
removes = refl

remove_route_acl-allowed_example :
    (q : Plugin) × (get_specific_plugin
        (memory_store.plugins (remove_route_acl decode memory kong ctx "r1" "app2" shared).1 "team")
        ""
        "r1"
        ""
        acl_plugin
      ≡ ret (ok q))
    × ((g : String)
        → count g (decode shared_acl.config).allowed_groups
          ≡ count g (decode q.config).allowed_groups + count g ("app2" ∷ []))
remove_route_acl-allowed_example =
    remove_route_acl-allowed decode memory kong memory_store decode-ReadsBack ctx team connected
      "r1" "app2" shared shared shared_acl 1 refl listed second two no_quota removes
