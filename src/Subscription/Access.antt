-- ===== src/Subscription/Access.antt =====
-- pkg/discovery/subscription/access/access.go: giving an application access to a route.
pub mod Kong
pub mod Outcome
mod Tests
use agents_kong.Prelude.{String, Bool, false, Option, none, some, [], ◌==◌, if◌then◌else◌}
use agents_kong.Prelude.Dict.{Dict, insert}
use agents_kong.Prelude.Int.{ℤ}
use agents_kong.Prelude.Go.{Result, ok, err}
use agents_kong.Prelude.Exec.{Call, Exec, pure, call, load, ◌>>=◌}
use agents_kong.Common.{
  Context, text, background, with_value, context_workspace, attr_app_id, wks_prefix_name,
}
use agents_kong.Kong.Klib.{Consumer}
use agents_kong.Subscription.Sdk.{Names, RequestStatus, failed, succeeded}

-- The quota of a request: GetInterval().String(), GetIntervalString() and GetLimit().
pub record Quota : Type 0 where
  pub interval : String
  pub interval_string : String
  pub limit : ℤ

-- The methods of `accessClient`, over a state.
pub record AccessClient (S : Type 0) : Type 0 where
  pub create_consumer : Context → String → String → Exec S (Result Consumer)
  pub add_consumer_acl : Context → String → Exec S (Option String)
  pub add_route_acl : Context → String → String → Exec S (Option String)
  pub remove_route_acl : Context → String → String → Exec S (Option String)
  pub add_quota : Context → String → String → String → ℤ → Exec S (Option String)

-- The methods of `centralClient`, and what the SDK reads of a resource.
pub record CentralClient (S : Type 0) : Type 1 where
  pub ResourceInstance : Type 0
  pub metadata_id : ResourceInstance → String
  pub get_agent_details : ResourceInstance → Option (Dict String)
  pub self_link : String → String → String
  pub get_resource : String → Call S ResourceInstance
  pub create_sub_resource : ResourceInstance → Dict String → Call S (Unit {0})

pub record AccessProvisioner : Type 0 where
  pub ctx : Context
  pub quota : Option Quota
  pub workspace : String
  pub route_id : String
  pub app_id : String
  pub app_name : String
  pub acl_disable : Bool
  pub env_name : String

-- The methods of `accessRequest`; the workspace and the route are read from the instance details.
pub record AccessRequest : Type 0 where
  pub application_name : String
  pub application_details_value : String → String
  pub workspace_name : String
  pub route_id : String
  pub quota : Option Quota

unfoldable pub new_access_provisioner : AccessRequest → Bool → String → AccessProvisioner
new_access_provisioner request acl_disable env_name = record {
  ctx = with_value background context_workspace (text request.workspace_name);
  quota = request.quota;
  workspace = request.workspace_name;
  route_id = request.route_id;
  app_id = request.application_details_value (wks_prefix_name request.workspace_name attr_app_id);
  app_name = request.application_name;
  acl_disable = acl_disable;
  env_name = env_name;
}

-- the status of Deprovision once the gateway has answered
abbrev pub removal_status : Option String → RequestStatus
removal_status (some _) = failed "could not remove consumer from ACL"
removal_status none = succeeded

-- the test of the quota's interval in Provision
abbrev pub is_weekly : Names → Option Quota → Bool
is_weekly names none = false
is_weekly names (some q) = q.interval == names.weekly

-- the status of Provision once the gateway has set the limits
abbrev pub limit_status : Option String → RequestStatus
limit_status (some _) = failed "could not create limits for consumer in kong"
limit_status none = succeeded

module _ (names : Names) {S : Type 0} (client : AccessClient S) (central : CentralClient S) where
  unfoldable pub get_managed_application :
      AccessProvisioner → Exec S (Result central.ResourceInstance)
  get_managed_application a = call (central.get_resource (central.self_link a.app_name a.env_name))

  -- what createConsumer does with the answer; the error of adding the ACL group is logged and dropped
  unfoldable pub with_group : AccessProvisioner → Result Consumer → Exec S (Result Consumer)
  with_group a (err e) = pure (err e)
  with_group a (ok consumer) = do
    id ← load consumer.id
    ignored ← client.add_consumer_acl a.ctx id
    pure (ok consumer)

  unfoldable pub create_consumer : AccessProvisioner → String → Exec S (Result Consumer)
  unfolding with_group
  create_consumer a app_id = do
    created ← client.create_consumer a.ctx app_id a.app_name
    with_group a created

  abbrev or_empty : Option (Dict String) → Dict String
  or_empty none = []
  or_empty (some details) = details

  -- The answer of the sub-resource call is not looked at.
  unfoldable pub update_managed_app_details :
      AccessProvisioner → central.ResourceInstance → String → Exec S (Unit {0})
  update_managed_app_details a app consumer_id = do
    ignored ← call (
        central.create_sub_resource app (
          insert (wks_prefix_name a.workspace attr_app_id) consumer_id
            (or_empty (central.get_agent_details app))))
    pure tt

  -- what provisionApp does with the consumer
  unfoldable pub with_consumer :
      AccessProvisioner → central.ResourceInstance → Result Consumer → Exec S (Result String)
  unfolding update_managed_app_details
  with_consumer a app (err _) = pure (err "could not create a new consumer in kong")
  with_consumer a app (ok consumer) = do
    id ← load consumer.id
    done ← update_managed_app_details a app id
    pure (ok id)

  -- what provisionApp does with the managed application
  unfoldable pub provision_found :
      AccessProvisioner → Result central.ResourceInstance → Exec S (Result String)
  unfolding create_consumer with_consumer
  provision_found a (err _) = pure (err "managed application not found")
  provision_found a (ok app) = do
    created ← create_consumer a (central.metadata_id app)
    with_consumer a app created

  unfoldable pub provision_app : AccessProvisioner → Exec S (Result String)
  unfolding get_managed_application provision_found
  provision_app a = do found ← get_managed_application a; provision_found a found

  -- the last part of Provision: the limits of the application
  unfoldable pub provision_quota : AccessProvisioner → Option Quota → Exec S RequestStatus
  provision_quota a none = pure succeeded
  provision_quota a (some q) = do
    limited ← client.add_quota a.ctx a.route_id a.app_id q.interval_string q.limit
    pure (limit_status limited)

  -- what Provision does once the gateway has answered
  unfoldable pub provision_granted : AccessProvisioner → Option String → Exec S RequestStatus
  unfolding provision_quota
  provision_granted a (some _) = pure (failed "could not provide access to consumer in kong")
  provision_granted a none = provision_quota a a.quota

  -- the part of Provision in which the application has an ID
  unfoldable pub provision_route : AccessProvisioner → Exec S RequestStatus
  unfolding provision_granted
  provision_route a =
      if a.app_id == ""
      then pure (failed "managed application ID not found")
      else if a.acl_disable
      then pure succeeded
      else if is_weekly names a.quota
      then pure (failed "weekly quota is not supported by kong")
      else do granted ← client.add_route_acl a.ctx a.route_id a.app_id; provision_granted a granted

  unfoldable pub with_app : AccessProvisioner → Result String → Exec S RequestStatus
  unfolding provision_route
  with_app a (err e) = pure (failed e)
  with_app a (ok app_id) = provision_route (record a { app_id = app_id })

  unfoldable pub provision : AccessProvisioner → Exec S RequestStatus
  unfolding provision_app with_app
  provision a =
      if a.workspace == ""
      then pure (failed "workspace not found")
      else if a.route_id == ""
      then pure (failed "route ID not found")
      else if a.app_id == ""
      then (do app ← provision_app a; with_app a app)
      else provision_route a

  unfoldable pub deprovision : AccessProvisioner → Exec S RequestStatus
  deprovision a =
      if a.workspace == ""
      then pure (failed "workspace not found")
      else if a.app_id == ""
      then pure (failed "managed application ID not found")
      else if a.route_id == ""
      then pure (failed "route ID not found")
      else if a.acl_disable
      then pure succeeded
      else do
        removed ← client.remove_route_acl a.ctx a.route_id a.app_id
        pure (removal_status removed)
