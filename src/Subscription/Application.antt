-- ===== src/Subscription/Application.antt =====
-- pkg/discovery/subscription/application/application.go: an application is a consumer in each
-- workspace, made when access is provisioned and deleted here.
pub mod Deletion
mod Tests
use agents_kong.Prelude.{
  String, not, Option, none, some, List, [], ◌∷◌, ◌==◌, is_empty, if◌then◌else◌,
}
use agents_kong.Prelude.Dict.{Dict, insert}
use agents_kong.Prelude.Exec.{Exec, pure, ◌>>=◌}
use agents_kong.Common.{
  Context, text, background, with_value, context_workspace, attr_app_id, wks_prefix_name,
}
use agents_kong.Subscription.Sdk.{RequestStatus, failed, succeeded}

pub record AppRequest : Type 0 where
  pub application_details_value : String → String
  pub managed_application_name : String
  pub id : String

pub record AppProvisioner : Type 0 where
  pub app_name : String
  pub app_id : String
  pub consumer_ids : Dict String

-- the loop over the workspaces: those in which the application has a consumer
unfoldable pub consumers_loop : AppRequest → List String → Dict String → Dict String
consumers_loop request [] ids = ids
consumers_loop request (workspace ∷ rest) ids =
    let consumer_id = request.application_details_value (wks_prefix_name workspace attr_app_id) in
    consumers_loop request rest
      (if not (consumer_id == "") then insert workspace consumer_id ids else ids)

unfoldable pub new_application_provisioner : AppRequest → List String → AppProvisioner
unfolding consumers_loop
new_application_provisioner request workspaces = record {
  app_name = request.managed_application_name;
  app_id = request.id;
  consumer_ids = consumers_loop request workspaces [];
}

-- Nothing is done: the consumers are made with the access requests.
unfoldable pub provision {ℓ} : {S : Type ℓ} → AppProvisioner → S → RequestStatus × S
provision a s = (succeeded, s)

-- `delete_consumer` is the method of `appClient`.
module _ {S : Type 0} (delete_consumer : Context → String → Exec S (Option String)) where
  -- the loop over the map, listed in the order in which `range` visits it
  unfoldable pub delete_loop : Dict String → Exec S RequestStatus
  delete_loop [] = pure succeeded
  delete_loop ((workspace, consumer_id) ∷ rest) = do
    deleted ← delete_consumer (with_value background context_workspace (text workspace)) consumer_id
    let later = delete_loop rest
    elim deleted [ some _ ↦ pure (failed "could not remove consumer in kong") | none ↦ later ]

  -- `visit` is the order of the range over the map.
  unfoldable pub deprovision : (Dict String → Dict String) → AppProvisioner → Exec S RequestStatus
  unfolding delete_loop
  deprovision visit a =
      if is_empty a.consumer_ids
      then pure (failed "workspace not found")
      else delete_loop (visit a.consumer_ids)
