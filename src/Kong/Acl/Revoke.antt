-- ===== src/Kong/Acl/Revoke.antt =====
-- RemoveRouteACL takes access away, and from no other application.
use agents_kong.Prelude.{
  ℕ, zero, suc, ◌+◌, ◌<◌, length, String, ◌≡◌, inl, inr, refl, ap, ◌∙◌, false, none, some, List, [],
  ◌∷◌, ◌==◌, arith, eq_iff, Bool-cases, Option-cases, is_empty,
}
use agents_kong.Prelude.Counts.{count}
use agents_kong.Prelude.Go.{ret-injective, Result, ok, err, Ret, ret, panic}
use agents_kong.Prelude.Exec.{continue}
use agents_kong.Common.{Context, acl_plugin, rate_limiting_plugin}
use agents_kong.Kong.Klib.{AdminApi, Configuration, Plugin}
use agents_kong.Kong.Client.{KongClient, Client, get_workspace_client}
use agents_kong.Kong.Selection.{get_specific_plugin}
use agents_kong.Kong.Selection.Search.{get_specific_plugin-map}
use agents_kong.Kong.Consumers.{Error}
use agents_kong.Kong.Acl.{
  AclConfig, position, remove_at, check_access, enabled_acl, update_or_delete_acl, disable_quota,
  quota_unless, revoke_at, remove_found, remove_listed, revoke_access, remove_route_acl,
}
use agents_kong.Kong.Acl.Store.{same_id, overwrite, PluginStore, ReadsBack}
use agents_kong.Kong.Acl.Grant.{overwrite-KeepsScope, same_id_self, ok_of_to_error}

some_injective : {A : Type 0} {a b : A} → some a ≡ some b → a ≡ b
some_injective e = cc

-- Removing at the position of a text takes one of it out, and nothing else.
count-remove_at :
    (id g : String) (groups : List String) (i : ℕ)
    → position id groups ≡ some i
    → count g groups ≡ count g (remove_at i groups) + count g (id ∷ [])
unfolding position remove_at count
count-remove_at id g [] i e = cc
count-remove_at id g (a ∷ rest) i e = elim (Bool-cases (a == id)) [
  | inl same ↦
      let first : 0 ≡ i = some_injective (rw same at e) in
      rw (← first, (eq_iff a id).0 same) (omega arith)
  | inr other ↦ elim (Option-cases (position id rest)) [
    | inl missing ↦ absurd (let bad : ⊥ = ground arith in bad)
    | inr (j, later) ↦
        let next : suc j ≡ i = some_injective (rw (other, later) at e) in
        rw (← next) (omega (arith, count-remove_at id g rest j later))
  ]
]

-- Something is left of two or more.
is_empty-remove_at :
    (i : ℕ) (groups : List String) → 1 < length groups → is_empty (remove_at i groups) ≡ false
unfolding remove_at
is_empty-remove_at i [] h = absurd (omega (arith, h))
is_empty-remove_at i (a ∷ []) h = absurd (omega (arith, h))
is_empty-remove_at zero (a ∷ b ∷ rest) h = refl
is_empty-remove_at (suc i) (a ∷ b ∷ rest) h = refl

module _ (decode : Configuration → AclConfig) (K : AdminApi) (k : KongClient) (P : PluginStore K)
    (reads : ReadsBack decode) (ctx : Context) (client : Client)
    (connected : get_workspace_client k ctx ≡ some client) (route_id id : String) where
  -- the search for the ACL of the route finds the plugin in the state
  abbrev Finds : K.State → Plugin → Type 0
  Finds s q =
      get_specific_plugin (P.plugins s client.workspace) "" route_id "" acl_plugin ≡ ret (ok q)

  update-Finds :
      (s : K.State) (p : Plugin) (c : AclConfig)
      → is_empty c.allowed_groups ≡ false
      → Finds s p
      → (update_or_delete_acl K k ctx p c route_id s).0 ≡ ret none
      → (q : Plugin) × Finds (update_or_delete_acl K k ctx p c route_id s).1 q
        × (decode q.config ≡ c)
        × (q.id ≡ p.id)
  unfolding update_or_delete_acl
  update-Finds s p c full found h =
      let (q, made) =
        ok_of_to_error (K.plugins_update_for_route client.workspace route_id (enabled_acl p c) s).0
          (ret-injective (rw (full, connected) at h)) in
      let (identified, written) = P.updated client.workspace route_id (enabled_acl p c) q s made in
      (
        overwrite (enabled_acl p c) p,
        rw (full, connected, written)
            (get_specific_plugin-map "" route_id "" acl_plugin (overwrite (enabled_acl p c))
                (P.plugins s client.workspace) (overwrite-KeepsScope (enabled_acl p c))
              ∙ rw found refl),
        rw (same_id_self p.id identified) (reads c),
        rw (same_id_self p.id identified) refl,
      )

  -- A quota that is switched off is another plugin than the ACL.
  quota-Finds :
      (s : K.State) (plugins : List Plugin) (q : Plugin) (r : Ret (Result Plugin))
      → get_specific_plugin plugins "" route_id id rate_limiting_plugin ≡ r
      → ((p : Plugin) → r ≡ ret (ok p) → same_id p.id q.id ≡ false)
      → Finds s q
      → (disable_quota K k ctx plugins route_id id s).0 ≡ ret none
      → (q' : Plugin) × Finds (disable_quota K k ctx plugins route_id id s).1 q'
        × (q'.config ≡ q.config)
  unfolding disable_quota
  quota-Finds s plugins q panic e apart found h = let bad : panic ≡ ret none = rw e at h in cc
  quota-Finds s plugins q (ret (err m)) e apart found h = rw e (q, found, refl)
  quota-Finds s plugins q (ret (ok p)) e apart found h =
      let off : Plugin = record p { enabled = some false } in
      let (made, updated) =
        ok_of_to_error (K.plugins_update_for_route client.workspace route_id off s).0
          (ret-injective (rw (e, connected) at h)) in
      let (identified, written) = P.updated client.workspace route_id off made s updated in
      (
        overwrite off q,
        rw (e, connected, written)
            (get_specific_plugin-map "" route_id "" acl_plugin (overwrite off)
                (P.plugins s client.workspace) (overwrite-KeepsScope off)
              ∙ rw found refl),
        rw (apart p refl) refl,
      )

  written-Finds :
      (out : Ret Error × K.State) (plugins : List Plugin) (p : Plugin) (c : AclConfig)
      → ((r : Plugin)
          → get_specific_plugin plugins "" route_id id rate_limiting_plugin ≡ ret (ok r)
          → same_id r.id p.id ≡ false)
      → (out.0 ≡ ret none → (q : Plugin) × Finds out.1 q × (decode q.config ≡ c) × (q.id ≡ p.id))
      → (continue out (quota_unless decode K k ctx plugins route_id id)).0 ≡ ret none
      → (q : Plugin) × Finds (continue out (quota_unless decode K k ctx plugins route_id id)).1 q
        × (decode q.config ≡ c)
  unfolding quota_unless
  written-Finds (panic, s) plugins p c apart found h = cc
  written-Finds (ret (some e), s) plugins p c apart found h = cc
  written-Finds (ret none, s) plugins p c apart found h =
      let (q, finds, reading, same) = found refl in
      let (q', finds', kept) =
        quota-Finds s plugins q _ refl (λ r e. rw same (apart r e)) finds h in
      (q', finds', ap decode kept ∙ reading)

  revoke_at-Finds :
      (s : K.State) (plugins : List Plugin) (p : Plugin) (i : ℕ)
      → 1 < length (decode p.config).allowed_groups
      → ((r : Plugin)
          → get_specific_plugin plugins "" route_id id rate_limiting_plugin ≡ ret (ok r)
          → same_id r.id p.id ≡ false)
      → Finds s p
      → (revoke_at decode K k ctx plugins p route_id id (decode p.config) (some i) s).0 ≡ ret none
      → (q : Plugin) × Finds
          (revoke_at decode K k ctx plugins p route_id id (decode p.config) (some i) s).1
          q
        × (decode q.config ≡ record (decode p.config) {
          allowed_groups = remove_at i (decode p.config).allowed_groups;
        })
  unfolding revoke_at
  revoke_at-Finds s plugins p i others apart found h =
      let c : AclConfig = record (decode p.config) {
        allowed_groups = remove_at i (decode p.config).allowed_groups;
      } in
      written-Finds (update_or_delete_acl K k ctx p c route_id s) plugins p c apart
        (update-Finds s p c (is_empty-remove_at i (decode p.config).allowed_groups others) found) h

  -- Where RemoveRouteACL of an application that the ACL of the route allows returns no error, the
  -- search for the ACL afterwards finds a plugin that allows what it allowed before, with one entry
  -- of the application less. The ACL allows another entry too, its plugin is not the one of the
  -- application's quota, the gateway answers as documented and the context's workspace has a client.
  pub remove_route_acl-allowed :
      (s : K.State) (plugins : List Plugin) (p : Plugin) (i : ℕ)
      → (K.plugins_list_all client.workspace s).0 ≡ ok plugins
      → get_specific_plugin plugins "" route_id "" acl_plugin ≡ ret (ok p)
      → position id (decode p.config).allowed_groups ≡ some i
      → 1 < length (decode p.config).allowed_groups
      → ((r : Plugin)
          → get_specific_plugin plugins "" route_id id rate_limiting_plugin ≡ ret (ok r)
          → same_id r.id p.id ≡ false)
      → (remove_route_acl decode K k ctx route_id id s).0 ≡ ret none
      → (q : Plugin) × (get_specific_plugin
            (P.plugins (remove_route_acl decode K k ctx route_id id s).1 client.workspace)
            ""
            route_id
            ""
            acl_plugin
          ≡ ret (ok q))
        × ((g : String)
            → count g (decode p.config).allowed_groups
              ≡ count g (decode q.config).allowed_groups + count g (id ∷ []))
  unfolding remove_route_acl remove_listed remove_found revoke_access check_access
  remove_route_acl-allowed s plugins p i listing search at_i others apart h =
      let (shown, kept) = P.listed client.workspace s plugins listing in
      let found : Finds s p = rw (← shown) search in
      let run : (revoke_at decode K k ctx plugins p route_id id (decode p.config) (some i) s).0
          ≡ ret none =
        rw (connected, listing, search, at_i, kept) at h in
      let (q, finds, reading) = revoke_at-Finds s plugins p i others apart found run in
      rw (connected, listing, search, at_i, kept)
        (q, finds, λ g. rw reading (count-remove_at id g (decode p.config).allowed_groups i at_i))
