-- ===== src/Subscription/Provisioner.antt =====
-- pkg/discovery/subscription/provision.go: the provisioner that is registered with the SDK, and the
-- requests that it passes on.
use agents_kong.Common.{Context}
use agents_kong.Prelude.Dict.{Dict}
use agents_kong.Prelude.{Bool, true, Option, String, false, List, [], ◌∷◌}
use agents_kong.Prelude.Exec.{Call, Exec, pure, ◌>>=◌}
use agents_kong.Subscription.Sdk.{Names, RequestStatus}
use agents_kong.Subscription.Access.{
  AccessClient, AccessRequest, CentralClient, new_access_provisioner,
}
use agents_kong.Subscription.Application.{AppRequest, new_application_provisioner}
use agents_kong.Subscription.Credential.{CredentialClient, CredRequest}
use agents_kong.Subscription.Credential.Provision.{Answer}
use agents_kong.Subscription.Register.{
  Registration, register_oauth2, register_basic_auth, register_key_auth,
}
use agents_kong.Subscription.Access as Access
use agents_kong.Subscription.Application as Application
use agents_kong.Subscription.Credential.Provision as Credential
use agents_kong.Subscription.Credential.Update as Renewal

-- The methods of `kongClient`, by the provisioner that calls them.
pub record KongClient (S : Type 0) : Type 0 where
  pub access : AccessClient S
  pub credentials : CredentialClient S
  pub delete_consumer : Context → String → Exec S (Option String)

pub record Provisioner (S : Type 0) : Type 0 where
  pub client : KongClient S
  pub acl_disable : Bool
  pub env_name : String
  pub workspaces : List String

abbrev pub ProvisionerOption : Type 0 → Type 0
ProvisionerOption S = Provisioner S → Provisioner S

abbrev pub with_acl_disable : {S : Type 0} → ProvisionerOption S
with_acl_disable p = record p { acl_disable = true }

unfoldable pub options_loop : {S : Type 0} → List (ProvisionerOption S) → ProvisionerOption S
options_loop [] p = p
options_loop (o ∷ rest) p = options_loop rest (o p)

module _ (names : Names) {S : Type 0} where
  module _ (register : Registration → Call S (Unit {0})) where
    unfoldable pub workspaces_loop : List String → Exec S (Unit {0})
    unfolding register_oauth2 register_basic_auth register_key_auth
    workspaces_loop [] = pure tt
    workspaces_loop (workspace ∷ rest) = do
      first ← register_oauth2 names register workspace
      second ← register_basic_auth names register workspace
      third ← register_key_auth names register workspace
      workspaces_loop rest

    -- `register_provisioner` is the SDK's RegisterProvisioner.
    unfoldable pub new_provisioner :
        (Provisioner S → S → S)
        → KongClient S
        → String
        → List String
        → List (ProvisionerOption S)
        → Exec S (Unit {0})
    unfolding workspaces_loop options_loop
    new_provisioner register_provisioner client env_name workspaces opts s =
        workspaces_loop workspaces (
          register_provisioner
            (options_loop opts (record {
              client = client;
              acl_disable = false;
              env_name = env_name;
              workspaces = workspaces;
            }))
            s)

  unfoldable pub application_request_provision : Provisioner S → AppRequest → S → RequestStatus × S
  application_request_provision p request =
      Application.provision (new_application_provisioner request p.workspaces)

  unfoldable pub application_request_deprovision :
      (Dict String → Dict String) → Provisioner S → AppRequest → Exec S RequestStatus
  application_request_deprovision visit p request =
      Application.deprovision p.client.delete_consumer visit
        (new_application_provisioner request p.workspaces)

  unfoldable pub credential_provision : Provisioner S → CredRequest → Exec S Answer
  credential_provision p request = Credential.provision names p.client.credentials request

  unfoldable pub credential_deprovision : Provisioner S → CredRequest → Exec S RequestStatus
  credential_deprovision p request = Credential.deprovision names p.client.credentials request

  unfoldable pub credential_update : Provisioner S → CredRequest → Exec S Answer
  credential_update p request = Renewal.update names p.client.credentials request

  module _ (central : CentralClient S) where
    unfoldable pub access_request_provision : Provisioner S → AccessRequest → Exec S RequestStatus
    access_request_provision p request =
        Access.provision names p.client.access central
          (new_access_provisioner request p.acl_disable p.env_name)

    unfoldable pub access_request_deprovision : Provisioner S → AccessRequest → Exec S RequestStatus
    access_request_deprovision p request =
        Access.deprovision names p.client.access central
          (new_access_provisioner request p.acl_disable p.env_name)
