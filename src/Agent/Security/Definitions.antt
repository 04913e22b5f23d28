-- ===== src/Agent/Security/Definitions.antt =====
-- Which definitions a service asks for, by the authentication plugins of its route.
use mathlib.Core.List.{append_assoc, append-nil}
use native.Mathlib.Omega.{arith}
use agents_kong.Prelude.{
  String, ◌≡◌, refl, sym, ◌∙◌, ap, ◌↔◌, ◌⊎◌, eq_iff, Any-append_split, Any-append_left,
  Any-append_right, Option, none, some, List, [], ◌∷◌, ◌++◌, Any, inl, inr, Bool-cases,
  if◌then◌else◌,
}
use agents_kong.Prelude.Dict.{Dict}
use agents_kong.Prelude.Go.{ret, ret-injective}
use agents_kong.Prelude.Exec.{continue-eq-ret}
use agents_kong.Common.{Context, context_workspace, get_string_value_from_ctx, wks_prefix_name}
use agents_kong.Kong.Klib.{Plugin}
use agents_kong.Kong.AuthPlugins.{Json}
use agents_kong.Subscription.Sdk.{Names}
use agents_kong.Agent.Route.{EndpointDefinition}
use agents_kong.Agent.Sdk.{KongApi, Platform}
use agents_kong.Agent.Security.{
  oas_spec, has_oas_type, kong_to_crd, add_crd, plugin_scheme, plugins_loop, oas_security,
  process_spec_security,
}

-- The definitions of the plugins that the mapper knows, in the order of the plugins.
unfoldable pub known_definitions : Names → String → Dict (Option Plugin) → List String
known_definitions names workspace [] = []
known_definitions names workspace ((k, plugin) ∷ rest) =
    add_crd workspace (kong_to_crd names k) [] ++ known_definitions names workspace rest

append_add_crd :
    (workspace : String) (crd : Option String) (crds rest : List String)
    → add_crd workspace crd crds ++ rest ≡ crds ++ (add_crd workspace crd [] ++ rest)
unfolding add_crd
append_add_crd workspace none crds rest = refl
append_add_crd workspace (some crd) crds rest =
    append_assoc crds (wks_prefix_name workspace crd ∷ []) rest

module _ (platform : Platform) (json : Json) (names : Names) (workspace : String) where
  plugins_loop-definitions :
      (endpoints : List EndpointDefinition) (plugins : Dict (Option Plugin))
      (crds found : List String) (spec spec' : platform.SpecProcessor)
      → plugins_loop platform json names workspace endpoints plugins crds spec ≡ (ret found, spec')
      → found ≡ crds ++ known_definitions names workspace plugins
  unfolding plugins_loop known_definitions
  plugins_loop-definitions endpoints [] crds found spec spec' e =
      let same : ret crds ≡ ret found = ap (λ out. out.0) e in
      rw (append-nil crds) (sym (ret-injective same))
  plugins_loop-definitions endpoints ((k, plugin) ∷ rest) crds found spec spec' e =
      let (done, spec'', first, second) =
        continue-eq-ret (plugin_scheme platform json endpoints k plugin spec) _ e in
      plugins_loop-definitions endpoints rest _ found spec'' spec' second
      ∙ append_add_crd workspace (kong_to_crd names k) crds _

  oas_security-definitions :
      (plugins : Dict (Option Plugin)) (ka api : KongApi) (spec spec' : platform.SpecProcessor)
      → oas_security platform json names workspace plugins ka spec ≡ (ret api, spec')
      → api.crds ≡ known_definitions names workspace plugins
  unfolding oas_security
  oas_security-definitions plugins ka api spec spec' e =
      let (oas, cast, _, stripped) = continue-eq-ret (oas_spec platform json spec) _ e in
      let (found, left, looped, built) =
        continue-eq-ret
          (plugins_loop platform json names workspace ka.endpoints plugins []
            (platform.strip_spec_auth cast))
          _ stripped in
      let same : ret (record ka {
        ard = names.api_key_ard;
        crds = found;
        spec = platform.get_spec_bytes left;
      })
          ≡ ret api =
        ap (λ out. out.0) built in
      ap (λ (a : KongApi). a.crds) (sym (ret-injective same))
      ∙ plugins_loop-definitions ka.endpoints plugins [] found _ left looped

module _ (platform : Platform) (json : Json) (names : Names) (ctx : Context) where
  -- the definitions of the API once its security has been looked at
  pub process_spec_security-definitions :
      (plugins : Dict (Option Plugin)) (ka api : KongApi) (spec spec' : platform.SpecProcessor)
      → process_spec_security platform json names ctx plugins ka spec ≡ (ret api, spec')
      → api.crds ≡ (
          if has_oas_type platform json spec
          then known_definitions names (get_string_value_from_ctx ctx context_workspace) plugins
          else ka.crds)
  unfolding process_spec_security
  process_spec_security-definitions plugins ka api spec spec' e =
      elim (Bool-cases (has_oas_type platform json spec)) [
        | inl is_oas ↦ rw is_oas (
            oas_security-definitions platform json names _ plugins ka api spec spec'
              (rw is_oas at e))
        | inr other ↦
            let same : ret ka ≡ ret api = ap (λ out. out.0) (rw other at e) in
            rw other (ap (λ (a : KongApi). a.crds) (sym (ret-injective same)))
      ]

-- The plugin of the name is for authentication, and this is its definition in the workspace.
abbrev pub IsDefinitionOf : Names → String → String → String → Type 0
IsDefinitionOf names workspace k d =
    ((k ≡ "basic-auth") × (d ≡ wks_prefix_name workspace names.basic_auth_crd))
    ⊎ (((k ≡ "key-auth") × (d ≡ wks_prefix_name workspace names.api_key_crd))
        ⊎ ((k ≡ "oauth2") × (d ≡ wks_prefix_name workspace names.oauth_secret_crd)))

module _ (names : Names) (workspace : String) where
  one_definition_iff :
      (k d : String)
      → Any (λ x. x ≡ d) (add_crd workspace (kong_to_crd names k) [])
        ↔ IsDefinitionOf names workspace k d
  unfolding add_crd kong_to_crd
  one_definition_iff k d = ground (
    arith,
    eq_iff k "basic-auth",
    eq_iff k "key-auth",
    eq_iff k "oauth2",
    eq_iff "basic-auth" "key-auth",
    eq_iff "basic-auth" "oauth2",
    eq_iff "key-auth" "oauth2",
  )

  pub known_definitions_iff :
      (plugins : Dict (Option Plugin)) (d : String)
      → Any (λ x. x ≡ d) (known_definitions names workspace plugins)
        ↔ Any (λ entry. IsDefinitionOf names workspace entry.0 d) plugins
  unfolding known_definitions
  known_definitions_iff [] d = (λ h. h, λ h. h)
  known_definitions_iff ((k, plugin) ∷ rest) d =
      let P : String → Type 0 = λ x. x ≡ d in
      let later = known_definitions_iff rest d in
      let here = one_definition_iff k d in
      (
        λ found. elim (Any-append_split P (add_crd workspace (kong_to_crd names k) []) _ found) [
          | inl first ↦ inl (here.0 first)
          | inr second ↦ inr (later.0 second)
        ],
        λ found. elim found [
          | inl first ↦ Any-append_left P _ _ (here.1 first)
          | inr second ↦
              Any-append_right P (add_crd workspace (kong_to_crd names k) []) _ (later.1 second)
        ],
      )
