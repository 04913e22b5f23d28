-- ===== src/Kong/Acl.antt =====
-- pkg/discovery/kong/provisioning.go: the ACL of a route, and the quotas of its consumers.
pub mod Store
pub mod Grant
pub mod Revoke
pub mod Memory
mod Tests
use agents_kong.Prelude.{
  ℕ, suc, String, Bool, true, false, Option, none, some, List, [], ◌∷◌, ◌++◌, ◌==◌, is_empty,
  if◌then◌else◌,
}
use agents_kong.Prelude.Go.{Result, ok, err}
use agents_kong.Prelude.Exec.{Exec, pure, lift, call, load, ◌>>=◌}
use agents_kong.Common.{Context, acl_plugin, rate_limiting_plugin}
use agents_kong.Kong.Klib.{AdminApi, texts, flag, Configuration, Plugin}
use agents_kong.Kong.Client.{KongClient, get_workspace_client}
use agents_kong.Kong.Selection.{get_specific_plugin}
use agents_kong.Kong.Consumers.{Error, to_error}

pub record AclConfig : Type 0 where
  pub allowed_groups : List String
  pub denied_groups : List String
  pub hide_groups_header : Bool

-- the map that is written for a configuration
unfoldable pub acl_configuration : AclConfig → Configuration
acl_configuration c =
    ("allow", texts c.allowed_groups)
    ∷ ("deny", texts c.denied_groups)
    ∷ ("hide_groups_header", flag c.hide_groups_header)
    ∷ []

-- the loop of `checkAccess`: the position of the first group that is the application
unfoldable pub position : String → List String → Option ℕ
position app_id [] = none
position app_id (allowed ∷ rest) =
    if allowed == app_id
    then some 0
    else (elim (position app_id rest) [ none ↦ none | some i ↦ some (suc i) ])

-- `append(groups[:i], groups[i+1:]...)`
unfoldable pub remove_at : ℕ → List String → List String
remove_at i [] = []
remove_at ℕ.zero (g ∷ gs) = gs
remove_at (suc i) (g ∷ gs) = g ∷ remove_at i gs

-- the plugin that is sent to be created
abbrev pub new_acl : AclConfig → Plugin
new_acl c = record {
  id = none;
  name = some acl_plugin;
  enabled = none;
  config = acl_configuration c;
  service = none;
  route = none;
  consumer = none;
}

abbrev pub enabled_acl : Plugin → AclConfig → Plugin
enabled_acl p c = record p { config = acl_configuration c; enabled = some true }

module _ (K : AdminApi) (k : KongClient) where
  unfoldable pub create_acl : Context → AclConfig → String → Exec K.State Error
  create_acl ctx c route_id = do
    client ← load (get_workspace_client k ctx)
    created ← call (K.plugins_create_for_route client.workspace route_id (new_acl c))
    pure (to_error created)

  unfoldable pub update_or_delete_acl : Context → Plugin → AclConfig → String → Exec K.State Error
  update_or_delete_acl ctx p c route_id =
      if is_empty c.allowed_groups
      then (do
        client ← load (get_workspace_client k ctx)
        deleted ← call (K.plugins_delete_for_route client.workspace route_id p.id)
        pure (to_error deleted))
      else (do
        client ← load (get_workspace_client k ctx)
        updated ← call (K.plugins_update_for_route client.workspace route_id (enabled_acl p c))
        pure (to_error updated))

  -- the last part of RemoveRouteACL: the quota of the consumer on the route is switched off
  unfoldable pub disable_quota : Context → List Plugin → String → String → Exec K.State Error
  disable_quota ctx plugins route_id revoked_id = do
    found ← lift (get_specific_plugin plugins "" route_id revoked_id rate_limiting_plugin)
    elim found [
      | err _ ↦ pure none
      | ok p ↦ do
        client ← load (get_workspace_client k ctx)
        updated ← call (
            K.plugins_update_for_route client.workspace route_id
              (record p { enabled = some false }))
        pure (to_error updated)
    ]

  -- access is given unless the application already has it
  unfoldable pub grant_unless :
      Context → Plugin → String → String → AclConfig → Option ℕ → Exec K.State Error
  unfolding update_or_delete_acl
  grant_unless ctx p route_id allowed_id acl (some _) = pure none
  grant_unless ctx p route_id allowed_id acl none =
      update_or_delete_acl ctx p
        (record acl { allowed_groups = acl.allowed_groups ++ allowed_id ∷ [] }) route_id

-- `decode` is mapstructure's reading of a plugin's configuration into an empty `ACLConfig`; what it
-- fails on it leaves empty.
module _ (decode : Configuration → AclConfig) where
  -- The configuration that the plugin holds, and where the application stands in it.
  unfoldable pub check_access : Plugin → String → AclConfig × Option ℕ
  unfolding position
  check_access plugin app_id =
      let acl = decode plugin.config in (acl, position app_id acl.allowed_groups)

module _ (decode : Configuration → AclConfig) (K : AdminApi) (k : KongClient) where
  -- what AddRouteACL does once the plugin is found
  unfoldable pub grant_access : Context → Plugin → String → String → Exec K.State Error
  unfolding check_access grant_unless
  grant_access ctx p route_id allowed_id =
      let (acl, access) = check_access decode p allowed_id in
      grant_unless K k ctx p route_id allowed_id acl access

  -- what AddRouteACL does with the outcome of the search
  unfoldable pub add_found : Context → String → String → Result Plugin → Exec K.State Error
  unfolding create_acl grant_access
  add_found ctx route_id allowed_id (ok p) = grant_access ctx p route_id allowed_id
  add_found ctx route_id allowed_id (err _) =
      create_acl K k ctx
        (record {
          allowed_groups = allowed_id ∷ [];
          denied_groups = [];
          hide_groups_header = false;
        })
        route_id

  -- and with the list of the plugins
  unfoldable pub add_listed : Context → String → String → Result (List Plugin) → Exec K.State Error
  unfolding add_found
  add_listed ctx route_id allowed_id (err e) = pure (some e)
  add_listed ctx route_id allowed_id (ok plugins) = do
    found ← lift (get_specific_plugin plugins "" route_id "" acl_plugin)
    add_found ctx route_id allowed_id found

  unfoldable pub add_route_acl : Context → String → String → Exec K.State Error
  unfolding add_listed
  add_route_acl ctx route_id allowed_id = do
    client ← load (get_workspace_client k ctx)
    listed ← call (K.plugins_list_all client.workspace)
    add_listed ctx route_id allowed_id listed

  -- what RemoveRouteACL does once the ACL is written: the quota is switched off unless it failed
  unfoldable pub quota_unless : Context → List Plugin → String → String → Error → Exec K.State Error
  unfolding disable_quota
  quota_unless ctx plugins route_id revoked_id (some e) = pure (some e)
  quota_unless ctx plugins route_id revoked_id none =
      disable_quota K k ctx plugins route_id revoked_id

  -- and once the application has been looked for among the groups
  unfoldable pub revoke_at :
      Context → List Plugin → Plugin → String → String → AclConfig → Option ℕ → Exec K.State Error
  unfolding update_or_delete_acl quota_unless remove_at
  revoke_at ctx plugins p route_id revoked_id acl none = pure none
  revoke_at ctx plugins p route_id revoked_id acl (some i) = do
    denied ←
        update_or_delete_acl K k ctx p
          (record acl { allowed_groups = remove_at i acl.allowed_groups }) route_id
    quota_unless ctx plugins route_id revoked_id denied

  unfoldable pub revoke_access :
      Context → List Plugin → Plugin → String → String → Exec K.State Error
  unfolding check_access revoke_at
  revoke_access ctx plugins p route_id revoked_id =
      let (acl, access) = check_access decode p revoked_id in
      revoke_at ctx plugins p route_id revoked_id acl access

  -- and with the outcome of the search, and the list of the plugins
  unfoldable pub remove_found :
      Context → List Plugin → String → String → Result Plugin → Exec K.State Error
  unfolding revoke_access
  remove_found ctx plugins route_id revoked_id (err e) = pure (some e)
  remove_found ctx plugins route_id revoked_id (ok p) =
      revoke_access ctx plugins p route_id revoked_id

  unfoldable pub remove_listed :
      Context → String → String → Result (List Plugin) → Exec K.State Error
  unfolding remove_found
  remove_listed ctx route_id revoked_id (err e) = pure (some e)
  remove_listed ctx route_id revoked_id (ok plugins) = do
    found ← lift (get_specific_plugin plugins "" route_id "" acl_plugin)
    remove_found ctx plugins route_id revoked_id found

  unfoldable pub remove_route_acl : Context → String → String → Exec K.State Error
  unfolding remove_listed
  remove_route_acl ctx route_id revoked_id = do
    client ← load (get_workspace_client k ctx)
    listed ← call (K.plugins_list_all client.workspace)
    remove_listed ctx route_id revoked_id listed
