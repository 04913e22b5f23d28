-- ===== src/Agent/GlobalAcl.antt =====
-- pkg/discovery/agent/agent.go: the check for a global ACL plugin when the agent starts.
pub mod Found
mod Tests
use agents_kong.Prelude.{
  String, Bool, true, false, not, ◌&&◌, is_some, Option, none, some, List, [], ◌∷◌, ◌==◌,
  if◌then◌else◌,
}
use agents_kong.Prelude.Go.{Result, ok, err, Ret, ret, deref, ◌>>=◌}
use agents_kong.Kong.Klib.{Plugin}

unfoldable pub plugin_is_global : Plugin → Bool
plugin_is_global p = not (is_some p.service) && not (is_some p.route)

abbrev pub no_acl_err : String
no_acl_err =
    "acl plugin is not enabled/installed, install and enable or change the config to disable this check"

-- what the loop tests of a plugin whose name it has compared
unfoldable pub is_enabled_global : Plugin → Bool → Ret Bool
unfolding plugin_is_global
is_enabled_global p false = ret false
is_enabled_global p true = do enabled ← deref p.enabled; ret (enabled && plugin_is_global p)

-- the test of the loop: the flag is followed only for a plugin of the name
unfoldable pub is_global_acl : Plugin → Ret Bool
unfolding is_enabled_global
is_global_acl p = do name ← deref p.name; is_enabled_global p (name == "acl")

-- `none` is the nil error.
unfoldable pub global_acl_loop : List Plugin → Ret (Option String)
unfolding is_global_acl
global_acl_loop [] = ret (some no_acl_err)
global_acl_loop (p ∷ ps) = do
  found ← is_global_acl p
  let rest = global_acl_loop ps
  if found then ret none else rest

unfoldable pub has_global_acl_enabled_in_plugins : List Plugin → Bool → Ret (Option String)
unfolding global_acl_loop
has_global_acl_enabled_in_plugins plugins acl_disable =
    if acl_disable then ret none else global_acl_loop plugins

-- The lister of the plugins is never nil; `listed` is what it answers.
unfoldable pub verify_acl_plugin : Result (List Plugin) → Bool → Ret (Option String)
unfolding has_global_acl_enabled_in_plugins
verify_acl_plugin (err e) acl_disable = ret (some e)
verify_acl_plugin (ok plugins) acl_disable = has_global_acl_enabled_in_plugins plugins acl_disable
