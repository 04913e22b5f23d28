-- ===== src/Kong/Quota.antt =====
-- pkg/discovery/kong/provisioning.go: the quota of a consumer on a route. The names of the intervals
-- are the SDK's.
use agents_kong.Prelude.{String, true, none, some, List, [], ◌∷◌, ◌==◌, if◌then◌else◌}
use agents_kong.Prelude.Text.{to_lower}
use agents_kong.Prelude.Int.{ℤ}
use agents_kong.Prelude.Dict.{insert}
use agents_kong.Prelude.Go.{Result, ok, err}
use agents_kong.Prelude.Exec.{Exec, pure, lift, call, load, ◌>>=◌}
use agents_kong.Common.{Context, rate_limiting_plugin}
use agents_kong.Kong.Klib.{AdminApi, text, number, Configuration, Plugin}
use agents_kong.Kong.Client.{KongClient, get_workspace_client}
use agents_kong.Kong.Selection.{get_specific_plugin}
use agents_kong.Kong.Consumers.{Error, to_error}
use agents_kong.Subscription.Sdk.{Names}

-- the switch on the interval; an interval that is none of the three sets no limit
unfoldable pub set_quota : Names → String → ℤ → Configuration
unfolding to_lower
set_quota names interval limit =
    let config : Configuration = ("policy", text "local") ∷ [] in
    let lower = to_lower interval in
    if lower == names.daily
    then insert "day" (number limit) config
    else if lower == names.monthly
    then insert "month" (number limit) config
    else if lower == names.annually
    then insert "year" (number limit) config
    else config

-- the plugin that is sent to be created
abbrev pub rate_limit : Configuration → String → Plugin
rate_limit config app_id = record {
  id = none;
  name = some rate_limiting_plugin;
  enabled = none;
  config = config;
  service = none;
  route = none;
  consumer = some (record { id = some app_id });
}

module _ (names : Names) (K : AdminApi) (k : KongClient) where
  unfoldable pub add_rate_limiting_plugin :
      Context → Configuration → String → String → Exec K.State Error
  add_rate_limiting_plugin ctx config route_id app_id = do
    client ← load (get_workspace_client k ctx)
    created ← call (K.plugins_create_for_route client.workspace route_id (rate_limit config app_id))
    pure (to_error created)

  -- what AddQuota does with a plugin that is there
  unfoldable pub enable_quota : Context → String → Plugin → Exec K.State Error
  enable_quota ctx route_id p = do
    enabled ← load p.enabled
    if enabled then pure none else do
      client ← load (get_workspace_client k ctx)
      updated ←
          call (
            K.plugins_update_for_route client.workspace route_id (record p { enabled = some true }))
      pure (to_error updated)

  unfoldable pub quota_found :
      Context → String → String → String → ℤ → Result Plugin → Exec K.State Error
  unfolding enable_quota add_rate_limiting_plugin
  quota_found ctx route_id app_id interval limit (ok p) = enable_quota ctx route_id p
  quota_found ctx route_id app_id interval limit (err _) =
      add_rate_limiting_plugin ctx (set_quota names interval limit) route_id app_id

  unfoldable pub quota_listed :
      Context → String → String → String → ℤ → Result (List Plugin) → Exec K.State Error
  unfolding quota_found
  quota_listed ctx route_id app_id interval limit (err e) = pure (some e)
  quota_listed ctx route_id app_id interval limit (ok plugins) = do
    found ← lift (get_specific_plugin plugins "" route_id app_id rate_limiting_plugin)
    quota_found ctx route_id app_id interval limit found

  unfoldable pub add_quota : Context → String → String → String → ℤ → Exec K.State Error
  unfolding quota_listed
  add_quota ctx route_id app_id interval limit = do
    client ← load (get_workspace_client k ctx)
    listed ← call (K.plugins_list_all client.workspace)
    quota_listed ctx route_id app_id interval limit listed
