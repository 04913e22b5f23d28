-- ===== src/Subscription/Access/Outcome.antt =====
-- The outcome of a request, and what it leaves untouched.
use agents_kong.Prelude.{
  String, ◌≡◌, ◌≢◌, ◌↔◌, ◌⊎◌, inl, inr, refl, ap, ◌∙◌, Bool, true, false, Option, none, some, ◌==◌,
  arith, eq_iff, Bool-cases, if◌then◌else◌,
}
use agents_kong.Prelude.Go.{Ret, ret, panic}
use agents_kong.Prelude.Exec.{continue}
use agents_kong.Subscription.Sdk.{Names, RequestStatus, failed, succeeded}
use agents_kong.Subscription.Access.{
  AccessClient, CentralClient, AccessProvisioner, Quota, provision_quota, provision_granted,
  provision_route, is_weekly, removal_status, limit_status, provision, deprovision,
}

is_set : {x : String} → x ≢ "" → x == "" ≡ false
is_set {x} h = ground (arith, eq_iff x "")

if_at :
    {S A : Type 0} (b : Bool) (m n : S → A) (s : S)
    → (if b then m else n) s ≡ (if b then m s else n s)
if_at true m n s = refl
if_at false m n s = refl

module _ (names : Names) {S : Type 0} (client : AccessClient S) (central : CentralClient S)
    (a : AccessProvisioner) where
  abbrev answered : Ret (Option String) × S → Ret RequestStatus × S
  answered out = continue out (λ removed s. (ret (removal_status removed), s))

  answered_iff :
      (out : Ret (Option String) × S) → (answered out).0 ≡ ret succeeded ↔ out.0 ≡ ret none
  answered_iff (panic, s) = (λ h. cc, λ h. cc)
  answered_iff (ret (some e), s) = (λ h. cc, λ h. cc)
  answered_iff (ret none, s) = (λ h. refl, λ h. refl)

  abbrev removed : S → Ret (Option String) × S
  removed s = client.remove_route_acl a.ctx a.route_id a.app_id s

  deprovision_known :
      (s : S)
      → a.workspace ≢ ""
      → a.app_id ≢ ""
      → a.route_id ≢ ""
      → deprovision names client central a s
        ≡ (if a.acl_disable then (ret succeeded, s) else answered (removed s))
  unfolding deprovision
  deprovision_known s w p r = rw (is_set w, is_set p, is_set r) (if_at a.acl_disable _ _ s)

  -- Deprovision succeeds exactly where the workspace, the application and the route are known and
  -- either access control is disabled or the gateway takes the application off the route's ACL
  -- without an error.
  pub deprovision_success_iff :
      (s : S)
      → (deprovision names client central a s).0 ≡ ret succeeded
        ↔ (a.workspace ≢ "")
          × (a.app_id ≢ "")
          × (a.route_id ≢ "")
          × ((a.acl_disable ≡ true)
              ⊎ ((client.remove_route_acl a.ctx a.route_id a.app_id s).0 ≡ ret none))
  unfolding deprovision
  deprovision_success_iff s = (λ h. there h, λ h. back h)
    where
      there :
          (deprovision names client central a s).0 ≡ ret succeeded
          → (a.workspace ≢ "")
            × (a.app_id ≢ "")
            × (a.route_id ≢ "")
            × ((a.acl_disable ≡ true) ⊎ ((removed s).0 ≡ ret none))
      there h =
          let w : a.workspace ≢ "" = λ e. ground (arith, eq_iff a.workspace "") in
          let p : a.app_id ≢ "" = λ e. ground (arith, eq_iff a.app_id "") in
          let r : a.route_id ≢ "" = λ e. ground (arith, eq_iff a.route_id "") in
          (
            w,
            p,
            r,
            elim (Bool-cases a.acl_disable) [
              | inl off ↦ inl off
              | inr on ↦
                  inr ((answered_iff (removed s)).0 (rw (deprovision_known s w p r, on) at h))
            ],
          )

      back :
          (a.workspace ≢ "")
            × (a.app_id ≢ "")
            × (a.route_id ≢ "")
            × ((a.acl_disable ≡ true) ⊎ ((removed s).0 ≡ ret none))
          → (deprovision names client central a s).0 ≡ ret succeeded
      back (w, p, r, inl off) = rw (deprovision_known s w p r, off)
      back (w, p, r, inr done) = elim (Bool-cases a.acl_disable) [
        | inl off ↦ rw (deprovision_known s w p r, off)
        | inr on ↦ rw (deprovision_known s w p r, on) ((answered_iff (removed s)).1 done)
      ]

  abbrev granted : S → Ret (Option String) × S
  granted s = client.add_route_acl a.ctx a.route_id a.app_id s

  -- Provision of a known application has succeeded in the last of its steps.
  abbrev pub IsLimited : Option Quota → S → Type 0
  IsLimited none s = Unit {0}
  IsLimited (some q) s =
      (client.add_quota a.ctx a.route_id a.app_id q.interval_string q.limit s).0 ≡ ret none

  limit_iff :
      (out : Ret (Option String) × S)
      → (continue out (λ l s. (ret (limit_status l), s))).0 ≡ ret succeeded ↔ out.0 ≡ ret none
  limit_iff (panic, s) = (λ h. cc, λ h. cc)
  limit_iff (ret (some e), s) = (λ h. cc, λ h. cc)
  limit_iff (ret none, s) = (λ h. refl, λ h. refl)

  IsLimited-iff :
      (q : Option Quota) (s : S)
      → (provision_quota names client central a q s).0 ≡ ret succeeded ↔ IsLimited q s
  unfolding provision_quota
  IsLimited-iff none s = (λ h. tt, λ h. refl)
  IsLimited-iff (some q) s =
      limit_iff (client.add_quota a.ctx a.route_id a.app_id q.interval_string q.limit s)

  provision_known :
      (s : S)
      → a.workspace ≢ ""
      → a.app_id ≢ ""
      → a.route_id ≢ ""
      → provision names client central a s ≡ (
          if a.acl_disable
          then (ret succeeded, s)
          else if is_weekly names a.quota
          then (ret (failed "weekly quota is not supported by kong"), s)
          else continue (granted s) (provision_granted names client central a))
  unfolding provision provision_route
  provision_known s w p r =
      rw (is_set w, is_set p, is_set r)
        (if_at a.acl_disable _ _ s
          ∙ ap (λ x. if a.acl_disable then (ret succeeded, s) else x)
              (if_at (is_weekly names a.quota) _ _ s))

  granted_iff :
      (out : Ret (Option String) × S)
      → (continue out (provision_granted names client central a)).0 ≡ ret succeeded
        ↔ (out.0 ≡ ret none) × IsLimited a.quota out.1
  unfolding provision_granted
  granted_iff (panic, s) = (λ h. cc, λ (h, k). cc)
  granted_iff (ret (some e), s) = (λ h. cc, λ (h, k). cc)
  granted_iff (ret none, s) =
      (λ h. (refl, (IsLimited-iff a.quota s).0 h), λ (h, k). (IsLimited-iff a.quota s).1 k)

  -- For a known workspace, application and route Provision succeeds exactly where access control is
  -- disabled, or the quota is not weekly and the gateway gives access and then sets the quota, if
  -- there is one, both without an error.
  pub provision_success_iff :
      (s : S)
      → a.workspace ≢ ""
      → a.app_id ≢ ""
      → a.route_id ≢ ""
      → (provision names client central a s).0 ≡ ret succeeded
        ↔ (a.acl_disable ≡ true)
          ⊎ ((is_weekly names a.quota ≡ false)
              × ((client.add_route_acl a.ctx a.route_id a.app_id s).0 ≡ ret none)
              × IsLimited a.quota (client.add_route_acl a.ctx a.route_id a.app_id s).1)
  provision_success_iff s w p r = rw (provision_known s w p r) (go a.acl_disable refl _ refl)
    where
      go :
          (off : Bool)
          → a.acl_disable ≡ off
          → (late : Bool) → is_weekly names a.quota ≡ late
          → (if off
                then (ret succeeded, s)
                else if late
                then (ret (failed "weekly quota is not supported by kong"), s)
                else continue (granted s) (provision_granted names client central a)).0
              ≡ ret succeeded
            ↔ (a.acl_disable ≡ true)
              ⊎ ((is_weekly names a.quota ≡ false)
                  × ((granted s).0 ≡ ret none)
                  × IsLimited a.quota (granted s).1)
      go true e late l = (λ h. inl e, λ h. refl)
      go false e true l = (λ h. cc, λ h. elim h [ inl off ↦ cc | inr (never, _, _) ↦ cc ])
      go false e false l = (
        λ h. (let (done, limited) = (granted_iff (granted s)).0 h in inr (l, done, limited)),
        λ h. elim h [
          | inl off ↦ cc
          | inr (_, done, limited) ↦ (granted_iff (granted s)).1 (done, limited)
        ],
      )
