-- ===== src/Kong/Selection.antt =====
-- getSpecificPlugin of pkg/discovery/kong/provisioning.go: the search for a plugin by its scope.
pub mod Search
pub mod Unmixed
pub mod Mixing
mod Tests
use agents_kong.Prelude.{
  String, Bool, false, not, ◌&&◌, ◌||◌, Option, none, some, List, [], ◌∷◌, ◌==◌, if◌then◌else◌,
}
use agents_kong.Prelude.Text.{◌<>◌}
use agents_kong.Prelude.Go.{Result, ok, err, Ret, ret, ◌>>=◌, deref}
use agents_kong.Kong.Klib.{Ref, Plugin}

-- `(id == "" && ref == nil) || (id != "" && ref != nil && *ref.ID == id)`
unfoldable pub scope_matches : String → Option Ref → Ret Bool
scope_matches id none = ret (id == "")
scope_matches id (some r) = if id == "" then ret false else do i ← deref r.id; ret (i == id)

-- The three variables that the loop carries on from plugin to plugin.
pub record Flags : Type 0 where
  pub service_match : Bool
  pub route_match : Bool
  pub consumer_match : Bool

abbrev pub no_match : Flags
no_match = record { service_match = false; route_match = false; consumer_match = false }

abbrev pub full_match : Flags → Bool
full_match f = f.service_match && (f.route_match && f.consumer_match)

-- the variables, and whether all three are set
abbrev pub verdict : Flags → Ret (Flags × Bool)
verdict f = ret (f, full_match f)

-- `continue`
abbrev pub pass_over : Flags → Ret (Flags × Bool)
pass_over f = ret (f, false)

module _ (service_id route_id consumer_id plugin_name : String) where
  -- what a plugin of the name adds to the variables
  unfoldable pub mark : Flags → Plugin → Ret Flags
  unfolding scope_matches
  mark f p = do
    c ← scope_matches consumer_id p.consumer
    r ← scope_matches route_id p.route
    s ← scope_matches service_id p.service
    ret (record {
      service_match = f.service_match || s;
      route_match = f.route_match || r;
      consumer_match = f.consumer_match || c;
    })

  -- one round of the loop: the variables after it, and whether the plugin is returned
  unfoldable pub search_step : Flags → Plugin → Ret (Flags × Bool)
  unfolding mark
  search_step f p = do
    name ← deref p.name
    if not (name == plugin_name) then pass_over f else do f' ← mark f p; verdict f'

  unfoldable pub search_loop : Flags → List Plugin → Ret (Result Plugin)
  search_loop f [] = ret (err ("no " <> (plugin_name <> " plugin found")))
  search_loop f (p ∷ ps) = do
    (f', found) ← search_step f p
    let rest = search_loop f' ps
    if found then ret (ok p) else rest

unfoldable pub get_specific_plugin :
    List Plugin → String → String → String → String → Ret (Result Plugin)
unfolding search_loop search_step
get_specific_plugin plugins service_id route_id consumer_id plugin_name =
    search_loop service_id route_id consumer_id plugin_name no_match plugins
