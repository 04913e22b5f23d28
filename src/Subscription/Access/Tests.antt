-- ===== src/Subscription/Access/Tests.antt =====
-- Concrete access requests.
use agents_kong.Prelude.{
  ◌≢◌, String, ◌≡◌, ◌↔◌, ◌⊎◌, arith, eq_iff, refl, false, true, none, [], List,
}
use agents_kong.Prelude.Dict.{lookup}
use agents_kong.Prelude.Go.{ret}
use agents_kong.Common.{get_string_value_from_ctx}
use agents_kong.Kong.Klib.{Plugin}
use agents_kong.Kong.Client.{get_workspace_client}
use agents_kong.Kong.Selection.{get_specific_plugin}
use agents_kong.Kong.Acl.{add_route_acl, remove_route_acl}
use agents_kong.Kong.Acl.Memory.{memory, memory_store, decode, decode-ReadsBack}
use agents_kong.Subscription.Sdk.{succeeded}
use agents_kong.Subscription.Samples.{sample_names, team, kong, ctx, connected, empty_central}
use agents_kong.Subscription.Access.{AccessProvisioner, is_weekly, provision, deprovision}
use agents_kong.Subscription.Access.Outcome.{provision_success_iff, deprovision_success_iff}
use agents_kong.Subscription.Access.Kong.{kong_access, AppGranted, provision-Granted}

abbrev known : AccessProvisioner
known = record {
  ctx = ctx;
  quota = none;
  workspace = "team";
  route_id = "r1";
  app_id = "app1";
  app_name = "shop";
  acl_disable = false;
  env_name = "env";
}

abbrev empty_gateway : List Plugin
empty_gateway = []

succeeds :
    (provision sample_names
      (kong_access sample_names decode memory kong)
      empty_central
      known
      empty_gateway).0
    ≡ ret succeeded
unfolding provision add_route_acl get_workspace_client get_string_value_from_ctx lookup
    get_specific_plugin
succeeds = refl

provision-Granted_example :
    AppGranted sample_names decode memory kong memory_store decode-ReadsBack empty_central known
      team connected refl refl empty_gateway
      (provision sample_names
        (kong_access sample_names decode memory kong)
        empty_central
        known
        empty_gateway).1
provision-Granted_example =
    provision-Granted sample_names decode memory kong memory_store decode-ReadsBack empty_central
      known team connected refl refl empty_gateway succeeds

abbrev unlimited : AccessProvisioner
unlimited = record known { acl_disable = true }

team_named : ◌≢◌ {A = String} "team" ""
team_named e = ground (arith, eq_iff "team" "")

app_named : ◌≢◌ {A = String} "app1" ""
app_named e = ground (arith, eq_iff "app1" "")

route_named : ◌≢◌ {A = String} "r1" ""
route_named e = ground (arith, eq_iff "r1" "")

provision_success_iff_example :
    (provision sample_names
        (kong_access sample_names decode memory kong)
        empty_central
        unlimited
        empty_gateway).0
      ≡ ret succeeded
    ↔ (true ≡ true)
      ⊎ ((is_weekly sample_names none ≡ false)
          × ((add_route_acl decode memory kong ctx "r1" "app1" empty_gateway).0 ≡ ret none)
          × Unit {0})
provision_success_iff_example =
    provision_success_iff sample_names (kong_access sample_names decode memory kong) empty_central
      unlimited empty_gateway team_named app_named route_named

deprovision_success_iff_example :
    (deprovision sample_names
        (kong_access sample_names decode memory kong)
        empty_central
        unlimited
        empty_gateway).0
      ≡ ret succeeded
    ↔ (◌≢◌ {A = String} "team" "")
      × (◌≢◌ {A = String} "app1" "")
      × (◌≢◌ {A = String} "r1" "")
      × ((true ≡ true)
          ⊎ ((remove_route_acl decode memory kong ctx "r1" "app1" empty_gateway).0 ≡ ret none))
deprovision_success_iff_example =
    deprovision_success_iff sample_names (kong_access sample_names decode memory kong) empty_central
      unlimited empty_gateway
