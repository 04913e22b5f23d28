-- ===== src/Agent/GlobalAcl/Found.antt =====
-- When the agent accepts the plugins of the gateway.
use agents_kong.Prelude.{
  String, ◌≡◌, ◌≢◌, ◌⊎◌, ◌↔◌, inl, inr, refl, sym, ap, ◌∙◌, Bool, true, false, ◌&&◌, Option, none,
  some, List, [], ◌∷◌, ◌==◌, arith, eq_iff, Bool-cases, All, Any,
}
use agents_kong.Prelude.Go.{ret}
use agents_kong.Kong.Klib.{Plugin, Ref}
use agents_kong.Agent.GlobalAcl.{
  plugin_is_global, is_enabled_global, is_global_acl, global_acl_loop,
  has_global_acl_enabled_in_plugins,
}

-- The fields that Kong always fills.
abbrev pub IsFilled : Plugin → Type 0
IsFilled p = (p.name ≢ none) × (p.enabled ≢ none)

-- An ACL plugin that is enabled and bound to no service and no route.
abbrev pub IsUnboundAcl : Plugin → Type 0
IsUnboundAcl p =
    (p.name ≡ some "acl") × (p.enabled ≡ some true) × (p.service ≡ none) × (p.route ≡ none)

not_acl : (name : String) → name == "acl" ≡ false → ◌≢◌ {A = Option String} (some name) (some "acl")
not_acl name other e = let bad : ⊥ = ground (arith, eq_iff name "acl") in bad

no_flag : {o : Option Bool} → o ≡ some false → o ≡ some true → ⊥
no_flag e h = cc

no_ref : {o : Option Ref} {r : Ref} → o ≡ some r → o ≡ none → ⊥
no_ref e h = cc

Outcome : Plugin → Type 0
Outcome p =
    ((is_global_acl p ≡ ret true) × IsUnboundAcl p)
    ⊎ ((is_global_acl p ≡ ret false) × (IsUnboundAcl p → ⊥))

refused :
    (p : Plugin) (name : String)
    → p.name ≡ some name
    → ((b : Bool) → is_enabled_global p b ≡ ret false)
    → is_global_acl p ≡ ret false
unfolding is_global_acl
refused p name q k = rw q (k (name == "acl"))

off : (p : Plugin) → p.enabled ≡ some false → (b : Bool) → is_enabled_global p b ≡ ret false
unfolding is_enabled_global
off p e true = rw e
off p e false = refl

bound :
    (p : Plugin) (enabled : Bool)
    → p.enabled ≡ some enabled
    → enabled && plugin_is_global p ≡ false
    → (b : Bool) → is_enabled_global p b ≡ ret false
unfolding is_enabled_global
bound p enabled e h true = rw (e, h)
bound p enabled e h false = refl

outcome : (p : Plugin) → IsFilled p → Outcome p
unfolding is_global_acl is_enabled_global plugin_is_global Outcome
outcome p (n, e) = go p.name refl p.enabled refl p.service refl p.route refl
  where
    go :
        (name : Option String)
        → p.name ≡ name
        → (enabled : Option Bool) → p.enabled ≡ enabled
        → (service : Option Ref) → p.service ≡ service
        → (route : Option Ref) → p.route ≡ route
        → Outcome p
    go none q enabled en service sv route rt = absurd (n q)
    go (some name) q none en service sv route rt = absurd (e en)
    go (some name) q (some false) en service sv route rt =
        inr (refused p name q (off p en), λ (a, b, c, d). no_flag en b)
    go (some name) q (some true) en (some s) sv route rt =
        inr (refused p name q (bound p true en (ground arith)), λ (a, b, c, d). no_ref sv c)
    go (some name) q (some true) en none sv (some r) rt =
        inr (refused p name q (bound p true en (ground arith)), λ (a, b, c, d). no_ref rt d)
    go (some name) q (some true) en none sv none rt = elim (Bool-cases (name == "acl")) [
      | inl same ↦
          inl (rw (q, same, en, sv, rt), (q ∙ ap some ((eq_iff name "acl").0 same), en, sv, rt))
      | inr other ↦ inr (rw (q, other), λ (a, b, c, d). not_acl name other (sym q ∙ a))
    ]

found_lem :
    (plugins : List Plugin)
    → All IsFilled plugins
    → (global_acl_loop plugins ≡ ret none) ↔ Any IsUnboundAcl plugins
unfolding global_acl_loop Outcome
found_lem [] filled = (λ e. cc, λ none_left. absurd none_left)
found_lem (p ∷ ps) (f, fs) = elim (outcome p f) [
  | inl (passes, acl) ↦ (λ e. inl acl, λ h. rw passes)
  | inr (fails, other) ↦ (
    λ e. inr ((found_lem ps fs).0 (rw fails at e)),
    λ h. elim h [ inl acl ↦ absurd (other acl) | inr later ↦ rw fails ((found_lem ps fs).1 later) ],
  )
]

-- Where Kong fills the name and the flag of each plugin, the check passes exactly where the check is
-- disabled or some plugin is an enabled ACL that is bound to no service and no route.
pub has_global_acl_iff :
    (plugins : List Plugin) (acl_disable : Bool)
    → All IsFilled plugins
    → (has_global_acl_enabled_in_plugins plugins acl_disable ≡ ret none)
      ↔ (acl_disable ≡ true) ⊎ Any IsUnboundAcl plugins
unfolding has_global_acl_enabled_in_plugins
has_global_acl_iff plugins true filled = (λ e. inl refl, λ h. refl)
has_global_acl_iff plugins false filled = (
  λ e. inr ((found_lem plugins filled).0 e),
  λ h. elim h [ inl disabled ↦ cc | inr found ↦ (found_lem plugins filled).1 found ],
)
