-- ===== src/Kong/Selection/Unmixed.antt =====
-- The search is right where the plugins of a name differ by route only.
use agents_kong.Prelude.{
  String, ◌≡◌, ◌⊎◌, inl, inr, refl, ap, ◌∙◌, Bool, true, false, not, some, List, [], ◌∷◌, ◌==◌,
  arith, eq_iff, Bool-cases, if◌then◌else◌, All, Any,
}
use agents_kong.Prelude.Go.{ok, ret, ◌>>=◌, >>=-eq-ret, deref, deref-eq-ret}
use agents_kong.Kong.Klib.{Plugin}
use agents_kong.Kong.Selection.{
  scope_matches, Flags, no_match, full_match, verdict, pass_over, mark, search_step, search_loop,
  get_specific_plugin,
}
use agents_kong.Kong.Selection.Search.{FullMatch}

module _ (service_id route_id consumer_id plugin_name : String) where
  abbrev IsFull : Plugin → Type 0
  IsFull = FullMatch service_id route_id consumer_id plugin_name

  -- Every plugin of the name is of the service and the consumer that are asked for.
  abbrev pub IsUnmixed : List Plugin → Type 0
  IsUnmixed = All (λ p.
      p.name ≡ some plugin_name
      → (scope_matches consumer_id p.consumer ≡ ret true)
        × (scope_matches service_id p.service ≡ ret true))

  mark_unmixed :
      (flags g : Flags) (q : Plugin)
      → flags.route_match ≡ false
      → scope_matches consumer_id q.consumer ≡ ret true
      → scope_matches service_id q.service ≡ ret true
      → mark service_id route_id consumer_id plugin_name flags q ≡ ret g
      → (scope_matches route_id q.route ≡ ret g.route_match) × (full_match g ≡ g.route_match)
  unfolding mark
  mark_unmixed flags g q f c s h = ground arith

  marked_unmixed :
      (flags g : Flags) (found : Bool) (q : Plugin)
      → flags.route_match ≡ false
      → q.name ≡ some plugin_name
      → scope_matches consumer_id q.consumer ≡ ret true
      → scope_matches service_id q.service ≡ ret true
      → (mark service_id route_id consumer_id plugin_name flags q >>= verdict) ≡ ret (g, found)
      → ((found ≡ true) × IsFull q) ⊎ ((found ≡ false) × (g.route_match ≡ false))
  marked_unmixed flags g found q f named c s h =
      let (f', marked, h') =
        >>=-eq-ret (mark service_id route_id consumer_id plugin_name flags q) verdict h in
      let (r, full) = mark_unmixed flags f' q f c s marked in
      go f' r full h' (Bool-cases f'.route_match)
    where
      go :
          (x : Flags)
          → scope_matches route_id q.route ≡ ret x.route_match
          → full_match x ≡ x.route_match
          → verdict x ≡ ret (g, found)
          → (x.route_match ≡ true) ⊎ (x.route_match ≡ false)
          → ((found ≡ true) × IsFull q) ⊎ ((found ≡ false) × (g.route_match ≡ false))
      go x r full e (inl on) = inl (
        ground arith,
        record { named = named; by_consumer = c; by_route = r ∙ ap ret on; by_service = s },
      )
      go x r full e (inr off) = inr (ground arith, ground arith)

  step_unmixed :
      (flags g : Flags) (found : Bool) (q : Plugin)
      → flags.route_match ≡ false
      → (q.name ≡ some plugin_name
          → (scope_matches consumer_id q.consumer ≡ ret true)
            × (scope_matches service_id q.service ≡ ret true))
      → search_step service_id route_id consumer_id plugin_name flags q ≡ ret (g, found)
      → ((found ≡ true) × IsFull q) ⊎ ((found ≡ false) × (g.route_match ≡ false))
  unfolding search_step
  step_unmixed flags g found q f u h =
      let (name, named, h') = >>=-eq-ret (deref q.name) _ h in
      go name (deref-eq-ret q.name named) h' (Bool-cases (name == plugin_name))
    where
      go :
          (name : String)
          → q.name ≡ some name
          → (if not (name == plugin_name)
              then pass_over flags
              else (mark service_id route_id consumer_id plugin_name flags q >>= verdict))
            ≡ ret (g, found)
          → ((name == plugin_name) ≡ true) ⊎ ((name == plugin_name) ≡ false)
          → ((found ≡ true) × IsFull q) ⊎ ((found ≡ false) × (g.route_match ≡ false))
      go name named e (inl same) =
          let named' : q.name ≡ some plugin_name = ground (arith, eq_iff name plugin_name) in
          let (c, s) = u named' in marked_unmixed flags g found q f named' c s (rw same at e)
      go name named e (inr other) = inr (ground arith, ground arith)

  loop_sound :
      (flags : Flags) (ps : List Plugin) (p : Plugin)
      → flags.route_match ≡ false
      → IsUnmixed ps
      → search_loop service_id route_id consumer_id plugin_name flags ps ≡ ret (ok p)
      → Any (λ q. (q ≡ p) × IsFull q) ps
  unfolding search_loop
  loop_sound flags [] p f u h = cc
  loop_sound flags (q ∷ qs) p f (u, us) h =
      let ((g, found), stepped, h') =
        >>=-eq-ret (search_step service_id route_id consumer_id plugin_name flags q) _ h in
      go g found (step_unmixed flags g found q f u stepped) (loop_sound g qs p) h'
    where
      go :
          (g : Flags) (found : Bool)
          → ((found ≡ true) × IsFull q) ⊎ ((found ≡ false) × (g.route_match ≡ false))
          → (g.route_match ≡ false
              → IsUnmixed qs
              → search_loop service_id route_id consumer_id plugin_name g qs ≡ ret (ok p)
              → Any (λ q. (q ≡ p) × IsFull q) qs)
          → (if found
              then ret (ok q)
              else search_loop service_id route_id consumer_id plugin_name g qs)
            ≡ ret (ok p)
          → Any (λ q. (q ≡ p) × IsFull q) (q ∷ qs)
      go g true (inl (_, m)) ih e = inl (cc, m)
      go g true (inr (off, _)) ih e = cc
      go g false (inl (on, m)) ih e = cc
      go g false (inr (_, r)) ih e = inr (ih r us e)

  -- Where every plugin of the name is of the service and the consumer that are asked for, a plugin
  -- that the search returns is a listed one, of the name, and bound to exactly what the IDs name.
  pub get_specific_plugin_sound :
      (ps : List Plugin) (p : Plugin)
      → IsUnmixed ps
      → get_specific_plugin ps service_id route_id consumer_id plugin_name ≡ ret (ok p)
      → Any (λ q. (q ≡ p) × IsFull q) ps
  unfolding get_specific_plugin
  get_specific_plugin_sound ps p u h = loop_sound no_match ps p refl u h
