-- ===== src/Agent/Security/Orders.antt =====
-- The range over the plugins of a route, in two orders.
use mathlib.Core.List.{Permᴰ}
use mathlib.Core.List.Permᴰ.{nil, cons, swap, trans}
use agents_kong.Prelude.{
  ◌≤◌, String, ◌≡◌, refl, sym, ap, ◌∙◌, inl, inr, Bool, true, false, Bool-cases, Option, none, List,
  [], ◌∷◌, length, ◌==◌, arith, if◌then◌else◌,
}
use agents_kong.Prelude.Dict.{Dict}
use agents_kong.Prelude.Go.{ret}
use agents_kong.Prelude.Exec.{pure, continue, continue-ext, ◌>>=◌}
use agents_kong.Common.{Context, context_workspace, get_string_value_from_ctx}
use agents_kong.Kong.Klib.{Plugin}
use agents_kong.Kong.AuthPlugins.{Json, basic_auth_plugin, key_auth_plugin, oauth_plugin}
use agents_kong.Subscription.Sdk.{Names}
use agents_kong.Agent.Route.{EndpointDefinition}
use agents_kong.Agent.Sdk.{KongApi, Platform}
use agents_kong.Agent.Security.{
  oas_spec, spec_bytes, has_oas_type, kong_to_crd, add_crd, plugin_scheme, plugins_loop,
  oas_security, process_spec_security,
}

abbrev pub is_auth : String → Bool
is_auth k =
    if k == basic_auth_plugin
    then true
    else if k == key_auth_plugin
    then true
    else k == oauth_plugin

abbrev pub put : String × Option Plugin → Dict (Option Plugin) → Dict (Option Plugin)
put entry rest = if is_auth entry.0 then entry ∷ rest else rest

-- the entries of the map with an authentication plugin
abbrev pub only_auth : Dict (Option Plugin) → Dict (Option Plugin)
only_auth [] = []
only_auth (entry ∷ rest) = put entry (only_auth rest)

-- The map has one authentication plugin at most.
abbrev pub HasOneAuth : Dict (Option Plugin) → Type 0
HasOneAuth plugins = length (only_auth plugins) ≤ 1

put_smaller :
    (entry : String × Option Plugin) (rest : Dict (Option Plugin))
    → length (put entry rest) ≤ 1
    → length rest ≤ 1
put_smaller entry rest h = ground arith

put_swap :
    (x y : String × Option Plugin) (rest : Dict (Option Plugin))
    → length (put x (put y rest)) ≤ 1
    → put x (put y rest) ≡ put y (put x rest)
put_swap x y rest h = ground arith

-- Two orders of one map have the same authentication plugins in the same order, if there is one.
pub only_auth-Perm :
    {d d' : Dict (Option Plugin)} → Permᴰ d d' → HasOneAuth d → only_auth d ≡ only_auth d'
only_auth-Perm nil h = refl
only_auth-Perm (cons {a} {b} {l₁} {l₂} e p) h =
    ap (λ x. put x (only_auth l₁)) e
    ∙ ap (put b) (only_auth-Perm p (put_smaller a (only_auth l₁) h))
only_auth-Perm (swap {a} {b} {a'} {b'} {l} e e') h =
    put_swap a b (only_auth l) h
    ∙ ap (λ x. put x (put a (only_auth l))) e'
    ∙ ap (λ x. put a' (put x (only_auth l))) e
only_auth-Perm (trans p q) h =
    let first = only_auth-Perm p h in first ∙ only_auth-Perm q (rw (← first) h)

module _ (platform : Platform) (json : Json) (names : Names) where
  other_plugin :
      (endpoints : List EndpointDefinition) (k : String) (plugin : Option Plugin)
      (p : platform.SpecProcessor)
      → is_auth k ≡ false
      → (plugin_scheme platform json endpoints k plugin p ≡ (ret tt, p))
        × (kong_to_crd names k ≡ none)
  unfolding plugin_scheme kong_to_crd
  other_plugin endpoints k plugin p h =
      let basic : k == basic_auth_plugin ≡ false = ground arith in
      let key : k == key_auth_plugin ≡ false = ground arith in
      let oauth : k == oauth_plugin ≡ false = ground arith in
      (rw (basic, key, oauth), rw (basic, key, oauth))

  module _ (workspace : String) (endpoints : List EndpointDefinition) where
    loop_only_auth :
        (plugins : Dict (Option Plugin)) (crds : List String) (p : platform.SpecProcessor)
        → plugins_loop platform json names workspace endpoints plugins crds p
          ≡ plugins_loop platform json names workspace endpoints (only_auth plugins) crds p
    unfolding plugins_loop add_crd
    loop_only_auth [] crds p = refl
    loop_only_auth ((k, plugin) ∷ rest) crds p = elim (Bool-cases (is_auth k)) [
      | inl auth ↦ rw auth (
          continue-ext (plugin_scheme platform json endpoints k plugin p) _ _
            (λ done. loop_only_auth rest (add_crd workspace (kong_to_crd names k) crds)))
      | inr other ↦
          let (same, no_crd) = other_plugin endpoints k plugin p other in
          rw (other, same, no_crd) (loop_only_auth rest crds p)
    ]

    loop_orders :
        (d d' : Dict (Option Plugin)) (crds : List String) (p : platform.SpecProcessor)
        → only_auth d ≡ only_auth d'
        → plugins_loop platform json names workspace endpoints d crds p
          ≡ plugins_loop platform json names workspace endpoints d' crds p
    loop_orders d d' crds p e =
        loop_only_auth d crds p
        ∙ ap (λ x. plugins_loop platform json names workspace endpoints x crds p) e
        ∙ sym (loop_only_auth d' crds p)

  oas_orders :
      (workspace : String) (d d' : Dict (Option Plugin)) (ka : KongApi) (p : platform.SpecProcessor)
      → only_auth d ≡ only_auth d'
      → oas_security platform json names workspace d ka p
        ≡ oas_security platform json names workspace d' ka p
  unfolding oas_security
  oas_orders workspace d d' ka p e = continue-ext (oas_spec platform json p) _ _ (λ is_oas q.
      ap
        (λ out. continue out (λ crds. do
          bytes ← spec_bytes platform json
          pure (record ka { ard = names.api_key_ard; crds = crds; spec = bytes })))
        (loop_orders workspace ka.endpoints d d' [] (platform.strip_spec_auth q) e))

  -- The security of a specification is the same with the same authentication plugins.
  pub security_orders :
      (ctx : Context) (d d' : Dict (Option Plugin)) (ka : KongApi) (p : platform.SpecProcessor)
      → only_auth d ≡ only_auth d'
      → process_spec_security platform json names ctx d ka p
        ≡ process_spec_security platform json names ctx d' ka p
  unfolding process_spec_security
  security_orders ctx d d' ka p e = elim (Bool-cases (has_oas_type platform json p)) [
    | inl oas ↦ rw oas (oas_orders (get_string_value_from_ctx ctx context_workspace) d d' ka p e)
    | inr other ↦ rw other (refl)
  ]
