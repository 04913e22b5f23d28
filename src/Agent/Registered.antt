-- ===== src/Agent/Registered.antt =====
-- What discovery publishes and what the provisioner registers: the definitions that a service asks
-- for are registered ones.
use mathlib.Core.List.{append_assoc, append-nil}
use agents_kong.Prelude.{
  true, false, ◌∙◌, String, ◌≡◌, ap, sym, inl, inr, Option, List, [], ◌∷◌, ◌++◌, Any,
  Any-append_left, Any-append_right,
}
use agents_kong.Prelude.Dict.{Dict}
use agents_kong.Prelude.Go.{ret}
use agents_kong.Prelude.Exec.{Call}
use agents_kong.Common.{get_string_value_from_ctx, wks_prefix_name}
use agents_kong.Kong.Klib.{Plugin, Route, Service}
use agents_kong.Kong.AuthPlugins.{Json}
use agents_kong.Subscription.Sdk.{Names}
use agents_kong.Subscription.Register.{
  Registration, access_request, credential_request, oauth, basic_auth, api_key, oauth2_name,
  http_basic_name, api_key_name, register_oauth2, register_basic_auth, register_key_auth,
  cors_schema_property, application_type_property, auth_redirect_schema_property,
}
use agents_kong.Subscription.Provisioner.{
  KongClient, Provisioner, ProvisionerOption, workspaces_loop, new_provisioner,
}
use agents_kong.Agent.Route.{EndpointDefinition}
use agents_kong.Agent.Sdk.{KongApi, Platform}
use agents_kong.Agent.Security.Definitions.{IsDefinitionOf}
use agents_kong.Agent.Publish.{service_body_builder, new_kong_api}
use agents_kong.Agent.Publish.Access.{IsAskedFor, service_access_iff}
use agents_kong.Agent.Discovery.{workspace_context}

-- A credential request definition of the name.
abbrev pub IsCredentialRequest : String → Registration → Type 0
IsCredentialRequest d (access_request flavour name) = ⊥
IsCredentialRequest d (credential_request flavour properties renewable suspendable name) = name ≡ d

module _ (names : Names) where
  -- The six registrations of a workspace, in order.
  unfoldable pub workspace_registrations : String → List Registration
  workspace_registrations workspace =
      access_request oauth (oauth2_name names)
      ∷ credential_request oauth
          (cors_schema_property ∷ application_type_property ∷ auth_redirect_schema_property ∷ [])
          true true (wks_prefix_name workspace (oauth2_name names))
      ∷ access_request basic_auth (http_basic_name names)
      ∷ credential_request basic_auth (cors_schema_property ∷ []) true false
          (wks_prefix_name workspace (http_basic_name names))
      ∷ access_request api_key (api_key_name names)
      ∷ credential_request api_key (cors_schema_property ∷ []) true false
          (wks_prefix_name workspace (api_key_name names))
      ∷ []

  unfoldable pub all_registrations : List String → List Registration
  all_registrations [] = []
  all_registrations (workspace ∷ rest) = workspace_registrations workspace ++ all_registrations rest

  module _ {S : Type 0} (register : Registration → Call S (Unit {0}))
      (calls : S → List Registration)
      (recorded : (r : Registration) (s : S) → calls (register r s).1 ≡ calls s ++ (r ∷ [])) where
    -- a list of registrations, one after the other
    abbrev perform : List Registration → S → S
    perform [] s = s
    perform (r ∷ rest) s = perform rest (register r s).1

    calls-perform : (rs : List Registration) (s : S) → calls (perform rs s) ≡ calls s ++ rs
    calls-perform [] s = sym (append-nil (calls s))
    calls-perform (r ∷ rest) s =
        calls-perform rest (register r s).1
        ∙ (ap (λ l. l ++ rest) (recorded r s) ∙ append_assoc (calls s) (r ∷ []) rest)

    -- Registering is what the description says, in order.
    loop_registers :
        (workspaces : List String) (s : S)
        → calls (workspaces_loop names register workspaces s).1
          ≡ calls s ++ all_registrations workspaces
    unfolding workspaces_loop register_oauth2 register_basic_auth register_key_auth
        all_registrations workspace_registrations
    loop_registers [] s = sym (append-nil (calls s))
    loop_registers (workspace ∷ rest) s =
        let six = workspace_registrations workspace in
        loop_registers rest (perform six s)
        ∙ (ap (λ l. l ++ all_registrations rest) (calls-perform six s)
            ∙ append_assoc (calls s) six (all_registrations rest))

  module _ (basic : names.basic_auth_ard ≡ names.basic_auth_crd)
      (key : names.api_key_ard ≡ names.api_key_crd) where
    registered_definition :
        (workspace k d : String)
        → IsDefinitionOf names workspace k d
        → Any (IsCredentialRequest d) (workspace_registrations workspace)
    unfolding workspace_registrations
    registered_definition workspace k d (inl (_, e)) =
        inr (inr (inr (inl (ap (wks_prefix_name workspace) basic ∙ sym e))))
    registered_definition workspace k d (inr (inl (_, e))) =
        inr (inr (inr (inr (inr (inl (ap (wks_prefix_name workspace) key ∙ sym e))))))
    registered_definition workspace k d (inr (inr (_, e))) = inr (inl (sym e))

    registered_among :
        (workspaces : List String) (workspace k d : String)
        → Any (λ w. w ≡ workspace) workspaces
        → IsDefinitionOf names workspace k d
        → Any (IsCredentialRequest d) (all_registrations workspaces)
    unfolding all_registrations
    registered_among [] workspace k d h defined = absurd h
    registered_among (w ∷ rest) workspace k d (inl same) defined =
        Any-append_left (IsCredentialRequest d) (workspace_registrations w) _
          (rw same (registered_definition workspace k d defined))
    registered_among (w ∷ rest) workspace k d (inr later) defined =
        Any-append_right (IsCredentialRequest d) (workspace_registrations w) _
          (registered_among rest workspace k d later defined)

    any_registered :
        (workspaces : List String) (workspace d : String) (plugins : Dict (Option Plugin))
        → Any (λ w. w ≡ workspace) workspaces
        → Any (λ (entry : String × Option Plugin). IsDefinitionOf names workspace entry.0 d) plugins
        → Any (IsCredentialRequest d) (all_registrations workspaces)
    any_registered workspaces workspace d [] h found = absurd found
    any_registered workspaces workspace d ((k, plugin) ∷ rest) h (inl here) =
        registered_among workspaces workspace k d h here
    any_registered workspaces workspace d (entry ∷ rest) h (inr later) =
        any_registered workspaces workspace d rest h later

    module _ (platform : Platform) (json : Json) {S : Type 0}
        (register : Registration → Call S (Unit {0})) (calls : S → List Registration)
        (recorded : (r : Registration) (s : S) → calls (register r s).1 ≡ calls s ++ (r ∷ [])) where
      -- Every definition that a published service asks for, in a workspace of the agent, is the name
      -- of a credential request that NewProvisioner registers. The SDK's two names of the basic
      -- authentication are one, and so are those of the API key; `calls` records the registrations.
      pub asked-registered :
          (register_provisioner : Provisioner S → S → S) (client : KongClient S) (env_name : String)
          (workspaces : List String) (opts : List (ProvisionerOption S)) (s : S)
          (workspace : String) (route : Route) (service : Service)
          (endpoints : List EndpointDefinition) (plugins : Dict (Option Plugin))
          (spec spec' : platform.SpecProcessor) (api : KongApi) (d : String)
          → Any (λ w. w ≡ workspace) workspaces
          → new_kong_api platform json names
              (workspace_context workspace)
              route
              service
              endpoints
              plugins
              spec
            ≡ (ret api, spec')
          → IsAskedFor d (service_body_builder platform api).access
          → Any (IsCredentialRequest d) (
              calls
                (new_provisioner names register register_provisioner client env_name workspaces opts
                  s).1)
      unfolding new_provisioner get_string_value_from_ctx
      asked-registered register_provisioner client env_name workspaces opts s workspace route
            service endpoints plugins spec spec' api d h made asked =
          let (_, defined) =
            (service_access_iff platform json names (workspace_context workspace) route service
                endpoints plugins spec spec' api d made).0
              asked in
          rw (loop_registers register calls recorded workspaces _) (
            Any-append_right (IsCredentialRequest d) (calls _) _
              (any_registered workspaces workspace d plugins h defined))
