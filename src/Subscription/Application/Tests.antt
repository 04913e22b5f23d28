-- ===== src/Subscription/Application/Tests.antt =====
-- A concrete application with a consumer in one of two workspaces.
use agents_kong.Prelude.{
  ◌≢◌, String, ◌≡◌, ◌⊎◌, refl, inl, inr, List, [], ◌∷◌, arith, eq_iff, ◌==◌, if◌then◌else◌,
}
use agents_kong.Prelude.Dict.{lookup, insert}
use agents_kong.Prelude.Go.{ret}
use agents_kong.Common.{get_string_value_from_ctx, wks_prefix_name}
use agents_kong.Kong.Client.{get_workspace_client}
use agents_kong.Kong.Consumers.{delete_consumer}
use agents_kong.Kong.Consumers.Behaviour.{IsGone}
use agents_kong.Kong.Consumers.Roster.{roster, roster_store}
use agents_kong.Subscription.Sdk.{succeeded}
use agents_kong.Subscription.Samples.{kong}
use agents_kong.Subscription.Application.{AppRequest, new_application_provisioner, deprovision}
use agents_kong.Subscription.Application.Deletion.{in_workspace, IsPassedOver, deprovision-IsGone}

abbrev details : String → String
details key = if key == "team-kongApplicationId" then "c1" else ""

abbrev request : AppRequest
request = record {
  application_details_value = details;
  managed_application_name = "shop";
  id = "42";
}

abbrev workspaces : List String
workspaces = "other" ∷ "team" ∷ []

abbrev consumers : List String
consumers = "c1" ∷ "c2" ∷ []

named : ◌≢◌ {A = String} "c1" ""
named e = ground (arith, eq_iff "c1" "")

succeeds :
    (deprovision
      (delete_consumer roster kong)
      (λ ids. ids)
      (new_application_provisioner request workspaces)
      consumers).0
    ≡ ret succeeded
unfolding deprovision new_application_provisioner delete_consumer get_workspace_client
    get_string_value_from_ctx lookup insert wks_prefix_name
succeeds = refl

deprovision-IsGone_example :
    IsGone roster kong roster_store
      (in_workspace "team")
      "c1"
      (deprovision
        (delete_consumer roster kong)
        (λ ids. ids)
        (new_application_provisioner request workspaces)
        consumers).1
    ⊎ IsPassedOver roster kong roster_store
        (new_application_provisioner request workspaces).consumer_ids
        consumers
        "team"
        "c1"
unfolding wks_prefix_name
deprovision-IsGone_example =
    deprovision-IsGone roster kong roster_store (λ ids. ids) (λ ids w. refl) request workspaces
      consumers "team" (inr (inl refl)) named succeeds
