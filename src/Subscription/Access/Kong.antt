-- ===== src/Subscription/Access/Kong.antt =====
-- The access client that the agent passes in, the client of pkg/discovery/kong, and what an access
-- request does in the gateway.
use agents_kong.Prelude.{
  String, ◌≡◌, ◌≢◌, ◌⊎◌, ◌∙◌, ap, inl, inr, refl, true, false, Option, none, some, ◌==◌, arith,
  eq_iff, Bool-cases,
}
use agents_kong.Prelude.Go.{Result, ok, err, Ret, ret, panic, ret-injective}
use agents_kong.Prelude.Exec.{pure, continue, continue-eq-ret, load-eq-ret}
use agents_kong.Kong.Klib.{AdminApi, Configuration, Consumer}
use agents_kong.Kong.Client.{KongClient, Client, get_workspace_client}
use agents_kong.Kong.Consumers
use agents_kong.Kong.Acl.{AclConfig, add_route_acl, remove_route_acl}
use agents_kong.Kong.Acl.Store.{PluginStore, ReadsBack}
use agents_kong.Kong.Acl.Grant.{IsGranted, add_route_acl-IsGranted}
use agents_kong.Kong.Quota.{add_quota}
use agents_kong.Subscription.Sdk.{Names, RequestStatus, succeeded}
use agents_kong.Subscription.Access.{
  AccessClient, CentralClient, AccessProvisioner, get_managed_application, with_group,
  create_consumer, update_managed_app_details, with_consumer, provision_found, provision_app,
  provision_quota, provision_granted, provision_route, with_app, provision,
}

abbrev pub kong_access :
    Names → (Configuration → AclConfig) → (K : AdminApi) → KongClient → AccessClient K.State
kong_access names decode K k = record {
  create_consumer = Consumers.create_consumer K k;
  add_consumer_acl = Consumers.add_consumer_acl K k;
  add_route_acl = add_route_acl decode K k;
  remove_route_acl = remove_route_acl decode K k;
  add_quota = add_quota names K k;
}

ok-injective : {A : Type 0} {a b : A} → ◌≡◌ {A = Result A} (ok a) (ok b) → a ≡ b
ok-injective e = cc

module _ (names : Names) (decode : Configuration → AclConfig) (K : AdminApi) (k : KongClient)
    (P : PluginStore K) (reads : ReadsBack decode) (central : CentralClient K.State)
    (a : AccessProvisioner) (client : Client)
    (connected : get_workspace_client k a.ctx ≡ some client) (enforced : a.acl_disable ≡ false)
    (unlimited : a.quota ≡ none) where
  abbrev kong : AccessClient K.State
  kong = kong_access names decode K k

  -- The ACL of the route that is found in the state allows the ID.
  abbrev pub IsAllowed : String → K.State → Type 0
  IsAllowed id s = IsGranted decode K P client.workspace a.route_id id s

  -- The ID of the application: the one it had before, or that of the consumer which CreateConsumer
  -- returned for the managed application.
  abbrev pub IsAppId : K.State → String → Type 0
  IsAppId s id =
      ((a.app_id ≢ "") × (id ≡ a.app_id))
      ⊎ ((a.app_id ≡ "")
          × (app : central.ResourceInstance) × (consumer : Consumer) × (t u : K.State)
          × (get_managed_application names kong central a s ≡ (ret (ok app), t))
          × (kong.create_consumer a.ctx (central.metadata_id app) a.app_name t
              ≡ (ret (ok consumer), u))
          × (consumer.id ≡ some id))

  granted-IsGranted :
      (b : AccessProvisioner) (s : K.State) (e : Ret (Option String))
      → b.quota ≡ none
      → (continue (e, s) (provision_granted names kong central b)).0 ≡ ret succeeded
      → (e ≡ ret none) × ((continue (e, s) (provision_granted names kong central b)).1 ≡ s)
  unfolding provision_granted provision_quota
  granted-IsGranted b s panic q h = cc
  granted-IsGranted b s (ret (some e)) q h = cc
  granted-IsGranted b s (ret none) q h =
      (refl, ap (λ x. (provision_quota names kong central b x s).1) q)

  answered-IsAllowed :
      (s : K.State) (id : String) (out : Ret (Option String) × K.State)
      → (out.0 ≡ ret none → IsAllowed id out.1)
      → (continue out (provision_granted names kong central (record a { app_id = id }))).0
        ≡ ret succeeded
      → IsAllowed id
          (continue out (provision_granted names kong central (record a { app_id = id }))).1
  answered-IsAllowed s id (e, s') granted h =
      let (none_left, kept) = granted-IsGranted (record a { app_id = id }) s' e unlimited h in
      rw kept (granted none_left)

  abbrev granting : String → K.State → Ret RequestStatus × K.State
  granting id s =
      continue (add_route_acl decode K k a.ctx a.route_id id s)
        (provision_granted names kong central (record a { app_id = id }))

  route_granting :
      (s : K.State) (id : String)
      → id == "" ≡ false
      → provision_route names kong central (record a { app_id = id }) s ≡ granting id s
  unfolding provision_route
  route_granting s id full = rw (full, enforced, unlimited)

  granting-IsAllowed :
      (s : K.State) (id : String)
      → a.route_id ≢ ""
      → (granting id s).0 ≡ ret succeeded
      → IsAllowed id (granting id s).1
  granting-IsAllowed s id routed h =
      answered-IsAllowed s id (add_route_acl decode K k a.ctx a.route_id id s)
        (add_route_acl-IsGranted decode K k P reads a.ctx client connected a.route_id id routed s) h

  no_id :
      (s : K.State) (id : String)
      → id == "" ≡ true
      → (provision_route names kong central (record a { app_id = id }) s).0 ≢ ret succeeded
  unfolding provision_route
  no_id s id empty h = let bad : ⊥ = ground arith in bad

  route-IsAllowed :
      (s : K.State) (id : String)
      → a.route_id ≢ ""
      → (provision_route names kong central (record a { app_id = id }) s).0 ≡ ret succeeded
      → IsAllowed id (provision_route names kong central (record a { app_id = id }) s).1
  route-IsAllowed s id routed h = elim (Bool-cases (id == "")) [
    | inl empty ↦ absurd (no_id s id empty h)
    | inr full ↦
        rw (route_granting s id full)
          (granting-IsAllowed s id routed (rw (route_granting s id full) at h))
  ]

  with_group-ok :
      (answer : Result Consumer) (consumer : Consumer) (s t : K.State)
      → with_group names kong central a answer s ≡ (ret (ok consumer), t)
      → answer ≡ ok consumer
  unfolding with_group
  with_group-ok (err m) consumer s t e = cc
  with_group-ok (ok c) consumer s t e =
      let (id, some_id, added) = load-eq-ret c.id s _ e in
      let (ignored, u, first, left) = continue-eq-ret (kong.add_consumer_acl a.ctx id s) _ added in
      ret-injective (ap (λ out. out.0) left)

  with_consumer-ok :
      (app : central.ResourceInstance) (answer : Result Consumer) (id : String) (s t : K.State)
      → with_consumer names kong central a app answer s ≡ (ret (ok id), t)
      → (consumer : Consumer) × (answer ≡ ok consumer) × (consumer.id ≡ some id)
  unfolding with_consumer
  with_consumer-ok app (err m) id s t e = cc
  with_consumer-ok app (ok consumer) id s t e =
      let (found, some_id, updated) = load-eq-ret consumer.id s _ e in
      let (done, u, first, left) =
        continue-eq-ret (update_managed_app_details names kong central a app found s)
          (λ done. pure (ok found)) updated in
      (consumer, refl, some_id ∙ ap some (ok-injective (ret-injective (ap (λ out. out.0) left))))

  found-IsAppId :
      (answer : Result central.ResourceInstance) (id : String) (s t t' : K.State)
      → a.app_id ≡ ""
      → get_managed_application names kong central a s ≡ (ret answer, t)
      → provision_found names kong central a answer t ≡ (ret (ok id), t')
      → IsAppId s id
  unfolding provision_found create_consumer
  found-IsAppId (err m) id s t t' new looked_up e = cc
  found-IsAppId (ok app) id s t t' new looked_up e =
      let (answer, v, created, finished) =
        continue-eq-ret (create_consumer names kong central a (central.metadata_id app) t) _ e in
      let (consumer, given, named) = with_consumer-ok app answer id v t' finished in
      let (returned, u, asked, joined) =
        continue-eq-ret (kong.create_consumer a.ctx (central.metadata_id app) a.app_name t) _
          created in
      let same = with_group-ok returned consumer u v (joined ∙ ap (λ r. (ret r, v)) given) in
      inr (new, app, consumer, t, u, looked_up, asked ∙ ap (λ r. (ret r, u)) same, named)

  -- the ID that provisionApp gives
  provision_app-IsAppId :
      (s t : K.State) (id : String)
      → a.app_id ≡ ""
      → provision_app names kong central a s ≡ (ret (ok id), t)
      → IsAppId s id
  unfolding provision_app
  provision_app-IsAppId s t id new e =
      let (found, u, looked_up, made) =
        continue-eq-ret (get_managed_application names kong central a s)
          (provision_found names kong central a) e in
      found-IsAppId found id s u t new looked_up made

  -- The ACL of the route allows the application.
  abbrev pub AppGranted : K.State → K.State → Type 0
  AppGranted s s' = (id : String) × IsAppId s id × IsAllowed id s'

  app-Granted :
      (s : K.State) (out : Ret (Result String) × K.State)
      → provision_app names kong central a s ≡ out
      → a.app_id ≡ ""
      → a.route_id ≢ ""
      → (continue out (with_app names kong central a)).0 ≡ ret succeeded
      → AppGranted s (continue out (with_app names kong central a)).1
  unfolding with_app
  app-Granted s (panic, t) e new routed h = cc
  app-Granted s (ret (err m), t) e new routed h = cc
  app-Granted s (ret (ok id), t) e new routed h =
      (id, provision_app-IsAppId s t id new e, route-IsAllowed t id routed h)

  no_workspace :
      (s : K.State)
      → a.workspace == "" ≡ true
      → (provision names kong central a s).0 ≢ ret succeeded
  unfolding provision
  no_workspace s e h = let bad : ⊥ = ground arith in bad

  no_route :
      (s : K.State) → a.route_id == "" ≡ true → (provision names kong central a s).0 ≢ ret succeeded
  unfolding provision
  no_route s e h = let bad : ⊥ = ground arith in bad

  provision_new :
      (s : K.State)
      → a.workspace == "" ≡ false
      → a.route_id == "" ≡ false
      → a.app_id == "" ≡ true
      → provision names kong central a s
        ≡ continue (provision_app names kong central a s) (with_app names kong central a)
  unfolding provision
  provision_new s w r e = rw (w, r, e)

  provision_known :
      (s : K.State)
      → a.workspace == "" ≡ false
      → a.route_id == "" ≡ false
      → a.app_id == "" ≡ false
      → provision names kong central a s ≡ provision_route names kong central a s
  unfolding provision
  provision_known s w r e = rw (w, r, e)

  routed-Granted :
      (s : K.State)
      → a.workspace == "" ≡ false
      → a.route_id == "" ≡ false
      → (provision names kong central a s).0 ≡ ret succeeded
      → AppGranted s (provision names kong central a s).1
  routed-Granted s w r h = elim (Bool-cases (a.app_id == "")) [
    | inl new ↦ rw (provision_new s w r new) (
        app-Granted s (provision_app names kong central a s) refl ((eq_iff a.app_id "").0 new)
          routed (rw (provision_new s w r new) at h))
    | inr known ↦ rw (provision_known s w r known) (
      a.app_id,
      inl (λ e. ground (arith, eq_iff a.app_id ""), refl),
      route-IsAllowed s a.app_id routed (rw (provision_known s w r known) at h),
    )
  ]
    where
      routed : a.route_id ≢ ""
      routed e = ground (arith, eq_iff a.route_id "")

  -- Where Provision succeeds, access control is enforced and there is no quota, the search for the
  -- ACL of the route afterwards finds a plugin that allows the application: the ID that it had
  -- before, or, if it had none, the ID of the consumer that CreateConsumer returned for the managed
  -- application. The gateway answers as documented and the workspace has a client.
  pub provision-Granted :
      (s : K.State)
      → (provision names kong central a s).0 ≡ ret succeeded
      → AppGranted s (provision names kong central a s).1
  provision-Granted s h = elim (Bool-cases (a.workspace == "")) [
    | inl empty ↦ absurd (no_workspace s empty h)
    | inr w ↦ elim (Bool-cases (a.route_id == "")) [
      | inl empty ↦ absurd (no_route s empty h)
      | inr r ↦ routed-Granted s w r h
    ]
  ]
