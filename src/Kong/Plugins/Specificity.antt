-- ===== src/Kong/Plugins/Specificity.antt =====
-- The loop of GetEffectivePlugins, one name at a time.
use agents_kong.Prelude.{
  ℕ, ◌+◌, ◌≤◌, String, ◌≡◌, ◌⊎◌, inl, inr, refl, Bool, true, false, Option, none, some, List, [],
  ◌∷◌, ◌==◌, arith, eq_iff, is_some, if◌then◌else◌, All, Any, ap, Bool-cases, sym, ◌∙◌,
}
use agents_kong.Prelude.Dict.{Dict, insert, lookup-insert}
use agents_kong.Prelude.Go.{ret, >>=-eq-ret, deref, deref-eq-ret}
use agents_kong.Kong.Klib.{Ref, Plugin}
use agents_kong.Kong.Plugins.{
  id_differs, most_specific, refers_elsewhere, pointer, skipped, keep, effective_step,
  effective_loop,
}

-- The reference is absent, or it names the entity.
abbrev pub InScope : Option Ref → String → Type 0
InScope none id = Unit
InScope (some r) id = r.id ≡ some id

-- The plugin is enabled, of the given name, and neither bound to another route nor to another
-- service.
pub record Applies (route_id service_id name : String) (p : Plugin) : Type 0 where
  pub in_route : InScope p.route route_id
  pub in_service : InScope p.service service_id
  pub enabled : p.enabled ≡ some true
  pub named : p.name ≡ some name

-- Bound to route and service 3, to a route 2, to a service 1, global 0.
abbrev pub rank : Plugin → ℕ
rank p = (if is_some p.route then 2 else 0) + (if is_some p.service then 1 else 0)

abbrev pub rank? : Option Plugin → ℕ
rank? none = 0
rank? (some p) = rank p + 1

most_specific_either :
    (o : Option Plugin) (p : Plugin)
    → (most_specific o (some p) ≡ o) ⊎ (most_specific o (some p) ≡ some p)
unfolding most_specific
most_specific_either none p = inr refl
most_specific_either (some q) p = ground arith

rank-most_specific :
    (o : Option Plugin) (p : Plugin)
    → (rank? o ≤ rank? (most_specific o (some p))) × (rank p + 1 ≤ rank? (most_specific o (some p)))
unfolding most_specific
rank-most_specific none p = ground arith
rank-most_specific (some q) p = ground arith

differs-eq-false : (o : Option String) (id : String) → id_differs o id ≡ false → o ≡ some id
differs-eq-false none id h = cc
differs-eq-false (some i) id h = ground (arith, eq_iff i id)

differs_self : (id : String) → id_differs (some id) id ≡ false
differs_self id = ground (arith, eq_iff id id)

pointer-insert :
    (k j : String) (v : Option Plugin) (m : Dict (Option Plugin))
    → pointer j (insert k v m) ≡ (if k == j then v else pointer j m)
unfolding pointer
pointer-insert k j v m = ground (arith, lookup-insert k j v m)

not_elsewhere : (r : Option Ref) (id : String) → refers_elsewhere r id ≡ false → InScope r id
unfolding refers_elsewhere
not_elsewhere none id h = tt
not_elsewhere (some r) id h = differs-eq-false r.id id h

elsewhere-eq-false : (r : Option Ref) (id : String) → InScope r id → refers_elsewhere r id ≡ false
unfolding refers_elsewhere
elsewhere-eq-false none id h = refl
elsewhere-eq-false (some r) id h = rw h (differs_self id)

module _ (route_id service_id : String) where
  -- The test of the loop passes exactly what is enabled and in scope.
  skipped-eq-false :
      (p : Plugin)
      → skipped route_id service_id p ≡ ret false
      → InScope p.route route_id × InScope p.service service_id × (p.enabled ≡ some true)
  unfolding skipped
  skipped-eq-false p h =
      ground (arith, not_elsewhere p.route route_id, not_elsewhere p.service service_id)

  skipped_of_Applies :
      (name : String) (p : Plugin)
      → Applies route_id service_id name p
      → skipped route_id service_id p ≡ ret false
  unfolding skipped
  skipped_of_Applies name p h = ground (
    arith,
    elsewhere-eq-false p.route route_id h.in_route,
    elsewhere-eq-false p.service service_id h.in_service,
  )

  -- What one round of the loop does to the entry of a name, from what it was.
  abbrev Round : String → Plugin → Option Plugin → Option Plugin → Type 0
  Round name p old new =
      ((new ≡ old) × ¬ Applies route_id service_id name p)
      ⊎ ((new ≡ most_specific old (some p)) × Applies route_id service_id name p)

  entry-Round :
      (name n : String) (p : Plugin) (m m' : Dict (Option Plugin))
      → skipped route_id service_id p ≡ ret false
      → p.name ≡ some n
      → insert n (most_specific (pointer n m) (some p)) m ≡ m'
      → Round name p (pointer name m) (pointer name m')
  entry-Round name n p m m' kept named e =
      let (in_route, in_service, enabled) = skipped-eq-false p kept in
      let found = pointer-insert n name (most_specific (pointer n m) (some p)) m in
      elim (Bool-cases (n == name)) [
        | inl same ↦ inr (
          ground (arith, found, eq_iff n name),
          record {
            in_route = in_route;
            in_service = in_service;
            enabled = enabled;
            named = ground (arith, eq_iff n name);
          },
        )
        | inr other ↦ inl (ground (arith, found), λ a. ground (arith, eq_iff n name, a.named))
      ]

  keep-Round :
      (name : String) (p : Plugin) (m m' : Dict (Option Plugin))
      → skipped route_id service_id p ≡ ret false
      → keep route_id service_id p m ≡ ret m'
      → Round name p (pointer name m) (pointer name m')
  unfolding keep
  keep-Round name p m m' kept e =
      let (n, named, e') = >>=-eq-ret (deref p.name) _ e in
      entry-Round name n p m m' kept (deref-eq-ret p.name named) (cc)

  step-Round :
      (name : String) (p : Plugin) (m m' : Dict (Option Plugin)) (skip : Bool)
      → skipped route_id service_id p ≡ ret skip
      → (if skip then ret m else keep route_id service_id p m) ≡ ret m'
      → Round name p (pointer name m) (pointer name m')
  step-Round name p m m' true tested e =
      inl (ap (pointer name) (cc), λ a. cc (tested, skipped_of_Applies name p a))
  step-Round name p m m' false tested e = keep-Round name p m m' tested e

  -- The entry of a name after the whole loop: the entry before it or a listed plugin that applies,
  -- and no less specific than either.
  pub record Kept (name : String) (ps : List Plugin) (old new : Option Plugin) : Type 0 where
    pub from : (new ≡ old) ⊎ Any (λ p. (new ≡ some p) × Applies route_id service_id name p) ps
    pub above_old : rank? old ≤ rank? new
    pub above_all : All (λ p. Applies route_id service_id name p → rank p + 1 ≤ rank? new) ps

  Kept-cons :
      (name : String) (p : Plugin) (ps : List Plugin) (old mid new : Option Plugin)
      → Round name p old mid
      → Kept name ps mid new
      → Kept name (p ∷ ps) old new
  Kept-cons name p ps old mid new (inl (same, foreign)) k = record {
    from = from_later k.from;
    above_old = rw (← same) k.above_old;
    above_all = (λ a. absurd (foreign a), k.above_all);
  }
    where
      from_later :
          (new ≡ mid) ⊎ Any (λ q. (new ≡ some q) × Applies route_id service_id name q) ps
          → (new ≡ old) ⊎ Any (λ q. (new ≡ some q) × Applies route_id service_id name q) (p ∷ ps)
      from_later (inl e) = inl (e ∙ same)
      from_later (inr h) = inr (inr h)
  Kept-cons name p ps old mid new (inr (chosen, applies)) k = record {
    from = from_later k.from (most_specific_either old p);
    above_old = omega (arith, (rank-most_specific old p).0, ap rank? chosen, k.above_old);
    above_all = (
      λ a. omega (arith, (rank-most_specific old p).1, ap rank? chosen, k.above_old),
      k.above_all,
    );
  }
    where
      from_later :
          (new ≡ mid) ⊎ Any (λ q. (new ≡ some q) × Applies route_id service_id name q) ps
          → (most_specific old (some p) ≡ old) ⊎ (most_specific old (some p) ≡ some p)
          → (new ≡ old) ⊎ Any (λ q. (new ≡ some q) × Applies route_id service_id name q) (p ∷ ps)
      from_later (inr h) _ = inr (inr h)
      from_later (inl e) (inl kept) = inl (e ∙ chosen ∙ kept)
      from_later (inl e) (inr taken) = inr (inl (e ∙ chosen ∙ taken, applies))

  pub loop-Kept :
      (name : String) (ps : List Plugin) (m m' : Dict (Option Plugin))
      → effective_loop route_id service_id ps m ≡ ret m'
      → Kept name ps (pointer name m) (pointer name m')
  unfolding effective_loop effective_step
  loop-Kept name [] m m' e =
      let same : m ≡ m' = cc in
      record {
        from = inl (ap (pointer name) (sym same));
        above_old = omega (arith, ap (λ d. rank? (pointer name d)) same);
        above_all = tt;
      }
  loop-Kept name (p ∷ ps) m m' e =
      let (mid, stepped, e') = >>=-eq-ret (effective_step route_id service_id p m) _ e in
      let (skip, tested, e'') = >>=-eq-ret (skipped route_id service_id p) _ stepped in
      Kept-cons name p ps (pointer name m) (pointer name mid) (pointer name m')
        (step-Round name p m mid skip tested e'') (loop-Kept name ps mid m' e')
