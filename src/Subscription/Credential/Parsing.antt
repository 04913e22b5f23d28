-- ===== src/Subscription/Credential/Parsing.antt =====
-- The name of a workspace's credential definition is read back.
use text.Mathlib.TextLemmas.{append_assoc}
use agents_kong.Prelude.{
  String, ◌≡◌, ◌≢◌, ◌↔◌, refl, ap, subst, ◌∙◌, sym, Bool, true, false, if◌then◌else◌,
}
use agents_kong.Prelude.Text.{◌<>◌, contains}
use agents_kong.Prelude.Text.Laws.{trim_suffix-append, contains-append}
use agents_kong.Common.{wks_prefix_name}
use agents_kong.Subscription.Sdk.{Names}
use agents_kong.Subscription.Credential.{parse_workspace, parse_credential_type}

pub parse_workspace-wks_prefix_name :
    (workspace crd : String) → parse_workspace (wks_prefix_name workspace crd) crd ≡ workspace
unfolding parse_workspace wks_prefix_name
parse_workspace-wks_prefix_name workspace crd = trim_suffix-append workspace ("-" <> crd)

-- the choice among the three types, by which of their names the text holds
abbrev chosen : Names → String → Bool → Bool → Bool → String × String
chosen names crd a b o =
    if a
    then (parse_workspace crd names.api_key_crd, names.api_key_crd)
    else if b
    then (parse_workspace crd names.basic_auth_crd, names.basic_auth_crd)
    else if o
    then (parse_workspace crd names.oauth_secret_crd, names.oauth_secret_crd)
    else ("", "")

parse_lem :
    (names : Names) (crd : String) (a b o : Bool)
    → contains crd names.api_key_crd ≡ a
    → contains crd names.basic_auth_ard ≡ b
    → contains crd names.oauth_secret_crd ≡ o
    → parse_credential_type names crd ≡ chosen names crd a b o
unfolding parse_credential_type
parse_lem names crd a b o ea eb eo =
    ap
      (λ a.
        chosen names crd a (contains crd names.basic_auth_ard)
          (contains crd names.oauth_secret_crd))
      ea
    ∙ (ap (λ b. chosen names crd a b (contains crd names.oauth_secret_crd)) eb
        ∙ ap (λ o. chosen names crd a b o) eo)

-- the text ends with the name of the type
holds : (workspace crd : String) → contains (wks_prefix_name workspace crd) crd ≡ true
unfolding wks_prefix_name
holds workspace crd =
    subst (λ t. contains t crd ≡ true) (append_assoc workspace "-" crd)
      (contains-append (workspace <> "-") crd)

-- The definition's name of an OAuth secret is read back as its workspace and its type exactly where
-- the name holds neither the API key's nor the basic authentication's; the three types differ.
pub parse_credential_type_oauth_iff :
    (names : Names) (workspace : String)
    → names.api_key_crd ≢ names.oauth_secret_crd
    → names.basic_auth_crd ≢ names.oauth_secret_crd
    → (parse_credential_type names (wks_prefix_name workspace names.oauth_secret_crd)
        ≡ (workspace, names.oauth_secret_crd))
      ↔ (contains (wks_prefix_name workspace names.oauth_secret_crd) names.api_key_crd ≡ false)
        × (contains (wks_prefix_name workspace names.oauth_secret_crd) names.basic_auth_ard ≡ false)
parse_credential_type_oauth_iff names workspace api basic = (
  λ h. go _ refl _ refl h,
  λ (a, b).
      parse_lem names (crd) false false true a b (holds workspace names.oauth_secret_crd)
      ∙ ap (λ w. (w, names.oauth_secret_crd))
          (parse_workspace-wks_prefix_name workspace names.oauth_secret_crd),
)
  where
    crd : String
    crd = wks_prefix_name workspace names.oauth_secret_crd

    go :
        (a : Bool)
        → contains crd names.api_key_crd ≡ a
        → (b : Bool) → contains crd names.basic_auth_ard ≡ b
        → parse_credential_type names crd ≡ (workspace, names.oauth_secret_crd)
        → (contains crd names.api_key_crd ≡ false) × (contains crd names.basic_auth_ard ≡ false)
    go true ea b eb h = absurd (
        api (
          ap (λ p. p.1)
            (sym (parse_lem names crd true b true ea eb (holds workspace names.oauth_secret_crd))
              ∙ h)))
    go false ea true eb h = absurd (
        basic (
          ap (λ p. p.1)
            (sym
                (parse_lem names crd false true true ea eb (holds workspace names.oauth_secret_crd))
              ∙ h)))
    go false ea false eb h = (ea, eb)

-- The definition's name of an API key is always read back as its workspace and its type.
pub parse_credential_type_api_key :
    (names : Names) (workspace : String)
    → parse_credential_type names (wks_prefix_name workspace names.api_key_crd)
      ≡ (workspace, names.api_key_crd)
parse_credential_type_api_key names workspace =
    parse_lem names crd true _ _ (holds workspace names.api_key_crd) refl refl
    ∙ ap (λ w. (w, names.api_key_crd)) (parse_workspace-wks_prefix_name workspace names.api_key_crd)
  where
    crd : String
    crd = wks_prefix_name workspace names.api_key_crd
