-- ===== src/Kong/Plugins.antt =====
-- pkg/discovery/kong/plugins.go: the effective plugins of a route.
pub mod Specificity
pub mod Effective
mod Tests
use agents_kong.Prelude.{
  String, Bool, true, false, not, ◌&&◌, ◌||◌, Option, none, some, List, [], ◌∷◌, ◌==◌, is_some,
  if◌then◌else◌,
}
use agents_kong.Prelude.Dict.{Dict, lookup, insert}
use agents_kong.Prelude.Go.{Result, ok, err, Ret, ret, ◌>>=◌, deref}
use agents_kong.Kong.Klib.{Ref, Plugin}

-- determines the most specific; `none` is nil
unfoldable pub most_specific : Option Plugin → Option Plugin → Option Plugin
most_specific none p2 = p2
most_specific (some p1) none = some p1
most_specific (some p1) (some p2) =
    if is_some p1.service && is_some p1.route
    then some p1
    else if is_some p2.service && is_some p2.route
    then some p2
    else if is_some p1.route
    then some p1
    else if is_some p2.route
    then some p2
    else if is_some p1.service
    then some p1
    else some p2

-- `ref.ID == nil || *ref.ID != id`
abbrev id_differs : Option String → String → Bool
id_differs none id = true
id_differs (some i) id = not (i == id)

-- `ref != nil && (ref.ID == nil || *ref.ID != id)`
unfoldable pub refers_elsewhere : Option Ref → String → Bool
refers_elsewhere none id = false
refers_elsewhere (some r) id = id_differs r.id id

-- The value of a missing key is nil.
unfoldable pub pointer : String → Dict (Option Plugin) → Option Plugin
pointer k m = elim (lookup k m) [ none ↦ none | some p ↦ p ]

module _ (route_id service_id : String) where
  -- The test of the loop. `||` stops at the first true, so `*plugin.Enabled` is read last.
  unfoldable pub skipped : Plugin → Ret Bool
  unfolding refers_elsewhere
  skipped p =
      if refers_elsewhere p.route route_id || refers_elsewhere p.service service_id
      then ret true
      else do enabled ← deref p.enabled; ret (not enabled)

  unfoldable pub keep : Plugin → Dict (Option Plugin) → Ret (Dict (Option Plugin))
  keep p m = do name ← deref p.name; ret (insert name (most_specific (pointer name m) (some p)) m)

  -- one round of the loop
  unfoldable pub effective_step : Plugin → Dict (Option Plugin) → Ret (Dict (Option Plugin))
  unfolding skipped keep
  effective_step p m = do skip ← skipped p; if skip then ret m else keep p m

  unfoldable pub effective_loop : List Plugin → Dict (Option Plugin) → Ret (Dict (Option Plugin))
  effective_loop [] m = ret m
  effective_loop (p ∷ ps) m = do m' ← effective_step p m; effective_loop ps m'

  -- `listed` is the answer of `p.ListAll`
  unfoldable pub get_effective_plugins : Result (List Plugin) → Ret (Result (Dict (Option Plugin)))
  unfolding effective_loop effective_step
  get_effective_plugins (err e) = ret (err e)
  get_effective_plugins (ok plugins) = do pmap ← effective_loop plugins []; ret (ok pmap)
