-- ===== src/Kong/Selection/Search.antt =====
-- What the search returns, and what it does not depend on.
use agents_kong.Prelude.{
  String, ◌≡◌, refl, Bool, true, false, some, List, [], ◌∷◌, ◌++◌, map, arith, eq_iff,
  if◌then◌else◌, All,
}
use agents_kong.Prelude.Go.{Result, ok, err, Ret, ret, panic, ◌>>=◌, >>=-eq-ret}
use agents_kong.Kong.Klib.{Plugin}
use agents_kong.Kong.Selection.{
  scope_matches, Flags, no_match, mark, search_step, search_loop, get_specific_plugin,
}

-- A change of a plugin that leaves its name and its scope as they are.
pub record KeepsScope (f : Plugin → Plugin) : Type 0 where
  pub name : (p : Plugin) → (f p).name ≡ p.name
  pub service : (p : Plugin) → (f p).service ≡ p.service
  pub route : (p : Plugin) → (f p).route ≡ p.route
  pub consumer : (p : Plugin) → (f p).consumer ≡ p.consumer

abbrev pub map_found : (Plugin → Plugin) → Ret (Result Plugin) → Ret (Result Plugin)
map_found f (ret (ok p)) = ret (ok (f p))
map_found f (ret (err e)) = ret (err e)
map_found f panic = panic

-- one round of the loop, from the rounds after it
found-map :
    (loop : Flags → List Plugin → Ret (Result Plugin)) (f : Plugin → Plugin) (p : Plugin)
    (ps : List Plugin) (step : Ret (Flags × Bool))
    → ((g : Flags) → loop g (map f ps) ≡ map_found f (loop g ps))
    → (step >>= λ x. if x.1 then ret (ok (f p)) else loop x.0 (map f ps))
      ≡ map_found f (step >>= λ x. if x.1 then ret (ok p) else loop x.0 ps)
found-map loop f p ps panic ih = refl
found-map loop f p ps (ret (g, true)) ih = refl
found-map loop f p ps (ret (g, false)) ih = ih g

module _ (service_id route_id consumer_id plugin_name : String) where
  step_map :
      (f : Plugin → Plugin) (flags : Flags) (p : Plugin)
      → KeepsScope f
      → search_step service_id route_id consumer_id plugin_name flags (f p)
        ≡ search_step service_id route_id consumer_id plugin_name flags p
  unfolding search_step mark
  step_map f flags p k = rw (k.name p, k.service p, k.route p, k.consumer p)

  loop_map :
      (f : Plugin → Plugin) (flags : Flags) (ps : List Plugin)
      → KeepsScope f
      → search_loop service_id route_id consumer_id plugin_name flags (map f ps)
        ≡ map_found f (search_loop service_id route_id consumer_id plugin_name flags ps)
  unfolding search_loop
  loop_map f flags [] k = refl
  loop_map f flags (p ∷ ps) k = rw (step_map f flags p k) (
      found-map (search_loop service_id route_id consumer_id plugin_name) f p ps
        (search_step service_id route_id consumer_id plugin_name flags p) (λ g. loop_map f g ps k))

  -- The search does not look at what a change that keeps names and scopes can change.
  pub get_specific_plugin-map :
      (f : Plugin → Plugin) (ps : List Plugin)
      → KeepsScope f
      → get_specific_plugin (map f ps) service_id route_id consumer_id plugin_name
        ≡ map_found f (get_specific_plugin ps service_id route_id consumer_id plugin_name)
  unfolding get_specific_plugin
  get_specific_plugin-map f ps k = loop_map f no_match ps k

  -- The plugin has the name, and is bound to exactly what the three IDs name; an empty ID stands for
  -- no binding.
  pub record FullMatch (p : Plugin) : Type 0 where
    pub named : p.name ≡ some plugin_name
    pub by_consumer : scope_matches consumer_id p.consumer ≡ ret true
    pub by_route : scope_matches route_id p.route ≡ ret true
    pub by_service : scope_matches service_id p.service ≡ ret true

  -- A full match ends the loop, whatever came before it.
  step_of_FullMatch :
      (flags : Flags) (p : Plugin)
      → FullMatch p
      → (g : Flags) × (search_step service_id route_id consumer_id plugin_name flags p
          ≡ ret (g, true))
  unfolding search_step mark
  step_of_FullMatch flags p m = (
    record { service_match = true; route_match = true; consumer_match = true },
    rw (m.named, m.by_consumer, m.by_route, m.by_service)
        (ground (arith, eq_iff plugin_name plugin_name)),
  )

  loop_complete :
      (flags : Flags) (ps : List Plugin) (e : String)
      → search_loop service_id route_id consumer_id plugin_name flags ps ≡ ret (err e)
      → All (λ p. ¬ FullMatch p) ps
  unfolding search_loop
  loop_complete flags [] e h = tt
  loop_complete flags (p ∷ ps) e h =
      let ((g, found), stepped, h') =
        >>=-eq-ret (search_step service_id route_id consumer_id plugin_name flags p) _ h in
      (
        λ m. let (g', full) = step_of_FullMatch flags p m in ground arith,
        loop_complete g ps e (ground arith),
      )

  -- The search fails only where no listed plugin is a full match.
  pub get_specific_plugin_complete :
      (ps : List Plugin) (e : String)
      → get_specific_plugin ps service_id route_id consumer_id plugin_name ≡ ret (err e)
      → All (λ p. ¬ FullMatch p) ps
  unfolding get_specific_plugin
  get_specific_plugin_complete ps e h = loop_complete no_match ps e h

  -- A full match that is put in a list is found where the search in the list before it fails.
  loop_insert :
      (flags : Flags) (ps qs : List Plugin) (q : Plugin) (e : String)
      → search_loop service_id route_id consumer_id plugin_name flags (ps ++ qs) ≡ ret (err e)
      → FullMatch q
      → search_loop service_id route_id consumer_id plugin_name flags (ps ++ q ∷ qs) ≡ ret (ok q)
  unfolding search_loop
  loop_insert flags [] qs q e h m = let (g, full) = step_of_FullMatch flags q m in rw full
  loop_insert flags (p ∷ ps) qs q e h m =
      let ((g, found), stepped, h') =
        >>=-eq-ret (search_step service_id route_id consumer_id plugin_name flags p) _ h in
      ground (arith, loop_insert g ps qs q e)

  pub get_specific_plugin_inserted :
      (ps qs : List Plugin) (q : Plugin) (e : String)
      → get_specific_plugin (ps ++ qs) service_id route_id consumer_id plugin_name ≡ ret (err e)
      → FullMatch q
      → get_specific_plugin (ps ++ q ∷ qs) service_id route_id consumer_id plugin_name ≡ ret (ok q)
  unfolding get_specific_plugin
  get_specific_plugin_inserted ps qs q e h m = loop_insert no_match ps qs q e h m
