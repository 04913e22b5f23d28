-- ===== src/Kong/Plugins/Effective.antt =====
-- What GetEffectivePlugins returns.
use agents_kong.Prelude.{
  ◌≤◌, String, ◌≡◌, ◌≢◌, ◌⊎◌, inl, inr, refl, Bool, true, Option, none, some, List, [], ◌∷◌, arith,
  if◌then◌else◌, All, Any, Any-map, All-map, Bool-cases, Option-cases, not, ◌||◌,
}
use agents_kong.Prelude.Dict.{Dict, insert, lookup}
use agents_kong.Prelude.Go.{ok, ret, deref, >>=-eq-ret}
use agents_kong.Kong.Klib.{Plugin}
use agents_kong.Kong.Plugins.{
  refers_elsewhere, most_specific, pointer, skipped, keep, effective_step, effective_loop,
  get_effective_plugins,
}
use agents_kong.Kong.Plugins.Specificity.{Applies, rank, Kept, loop-Kept}

module _ (route_id service_id : String) where
  result-Kept :
      (name : String) (plugins : List Plugin) (pmap : Dict (Option Plugin))
      → get_effective_plugins route_id service_id (ok plugins) ≡ ret (ok pmap)
      → Kept route_id service_id name plugins none (pointer name pmap)
  unfolding get_effective_plugins pointer lookup
  result-Kept name plugins pmap e =
      let (m, looped, e') = >>=-eq-ret (effective_loop route_id service_id plugins []) _ e in
      loop-Kept route_id service_id name plugins [] pmap (ground arith)

  from_list :
      (name : String) (plugins : List Plugin) (found : Option Plugin) (p : Plugin)
      → found ≡ some p
      → (found ≡ none) ⊎ Any (λ q. (found ≡ some q) × Applies route_id service_id name q) plugins
      → Any (λ q. (p ≡ q) × Applies route_id service_id name q) plugins
  from_list name plugins found p e (inl gone) = cc
  from_list name plugins found p e (inr h) = Any-map plugins (λ q (same, a). (cc, a)) h

  -- The plugin kept under a name is a listed plugin that applies (enabled, of that name, bound to no
  -- other route or service), and no listed plugin that applies is more specific.
  pub effective_plugins_most_specific :
      (name : String) (plugins : List Plugin) (pmap : Dict (Option Plugin)) (p : Plugin)
      → get_effective_plugins route_id service_id (ok plugins) ≡ ret (ok pmap)
      → pointer name pmap ≡ some p
      → Any (λ q. (p ≡ q) × Applies route_id service_id name q) plugins
        × All (λ q. Applies route_id service_id name q → rank q ≤ rank p) plugins
  effective_plugins_most_specific name plugins pmap p e found =
      let k = result-Kept name plugins pmap e in
      (
        from_list name plugins (pointer name pmap) p found k.from,
        All-map plugins (λ q below a. ground (arith, below a)) k.above_all,
      )

  -- A name without an entry is the name of no listed plugin that applies.
  pub effective_plugins_complete :
      (name : String) (plugins : List Plugin) (pmap : Dict (Option Plugin))
      → get_effective_plugins route_id service_id (ok plugins) ≡ ret (ok pmap)
      → pointer name pmap ≡ none
      → All (λ q. ¬ Applies route_id service_id name q) plugins
  effective_plugins_complete name plugins pmap e missing =
      let k = result-Kept name plugins pmap e in
      All-map plugins (λ q below a. ground (arith, below a)) k.above_all

  skipped_total :
      (p : Plugin) → p.enabled ≢ none → (b : Bool) × (skipped route_id service_id p ≡ ret b)
  unfolding skipped
  skipped_total p h = elim (Option-cases p.enabled) [
    | inl missing ↦ absurd (h missing)
    | inr (on, flagged) ↦
        elim (Bool-cases
          (refers_elsewhere p.route route_id || refers_elsewhere p.service service_id)) [
            | inl out ↦ (true, rw out)
            | inr inside ↦ (not on, rw (inside, flagged))
          ]
  ]

  keep_total :
      (p : Plugin) (m : Dict (Option Plugin))
      → p.name ≢ none
      → (m' : Dict (Option Plugin)) × (keep route_id service_id p m ≡ ret m')
  unfolding keep
  keep_total p m h = elim (Option-cases p.name) [
    | inl missing ↦ absurd (h missing)
    | inr (n, named) ↦ (insert n (most_specific (pointer n m) (some p)) m, rw (named, deref))
  ]

  step_total :
      (p : Plugin) (m : Dict (Option Plugin))
      → p.name ≢ none
      → p.enabled ≢ none
      → (m' : Dict (Option Plugin)) × (effective_step route_id service_id p m ≡ ret m')
  unfolding effective_step
  step_total p m named flagged =
      let (b, tested) = skipped_total p flagged in
      let (m', kept) = keep_total p m named in (if b then m else m', ground arith)

  loop_total :
      (plugins : List Plugin) (m : Dict (Option Plugin))
      → All (λ p. (p.name ≢ none) × (p.enabled ≢ none)) plugins
      → (m' : Dict (Option Plugin)) × (effective_loop route_id service_id plugins m ≡ ret m')
  unfolding effective_loop
  loop_total [] m h = (m, refl)
  loop_total (p ∷ ps) m ((named, flagged), h) =
      let (mid, stepped) = step_total p m named flagged in
      let (m', looped) = loop_total ps mid h in (m', rw stepped looped)

  -- Where every listed plugin has a name and an enabled flag, as Kong answers them, the call does
  -- not panic and returns a map.
  pub effective_plugins_total :
      (plugins : List Plugin)
      → All (λ p. (p.name ≢ none) × (p.enabled ≢ none)) plugins
      → (pmap : Dict (Option Plugin)) × (get_effective_plugins route_id service_id (ok plugins)
          ≡ ret (ok pmap))
  unfolding get_effective_plugins
  effective_plugins_total plugins h = let (m, looped) = loop_total plugins [] h in (m, rw looped)
