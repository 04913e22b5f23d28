-- ===== src/Kong/Acl/Grant.antt =====
-- AddRouteACL gives access.
use agents_kong.Prelude.{
  ℕ, String, ◌≡◌, ◌≢◌, inl, inr, refl, ◌∙◌, true, false, Option, none, some, List, [], ◌∷◌, ◌++◌,
  ◌==◌, arith, eq_iff, Bool-cases, Option-cases, is_empty, Any, Any-append_right,
}
use agents_kong.Prelude.Go.{ret-injective, Result, ok, err, Ret, ret, panic}
use agents_kong.Prelude.Exec.{continue}
use agents_kong.Common.{Context, acl_plugin}
use agents_kong.Kong.Klib.{AdminApi, Configuration, Plugin}
use agents_kong.Kong.Client.{KongClient, Client, get_workspace_client}
use agents_kong.Kong.Selection.{scope_matches, get_specific_plugin}
use agents_kong.Kong.Selection.Search.{
  KeepsScope, FullMatch, get_specific_plugin-map, get_specific_plugin_inserted,
}
use agents_kong.Kong.Consumers.{to_error}
use agents_kong.Kong.Acl.{
  AclConfig, position, check_access, new_acl, create_acl, enabled_acl, update_or_delete_acl,
  grant_unless, grant_access, add_found, add_listed, add_route_acl,
}
use agents_kong.Kong.Acl.Store.{same_id, overwrite, IsCreated, PluginStore, ReadsBack}

found_position :
    (id : String) (groups : List String) (i : ℕ)
    → position id groups ≡ some i
    → Any (λ g. g ≡ id) groups
unfolding position
found_position id [] i e = cc
found_position id (g ∷ gs) i e = elim (Bool-cases (g == id)) [
  | inl same ↦ inl ((eq_iff g id).0 same)
  | inr other ↦ elim (Option-cases (position id gs)) [
    | inl none_left ↦ absurd (let bad : ⊥ = ground arith in bad)
    | inr (j, later) ↦ inr (found_position id gs j later)
  ]
]

not_empty-append : (gs : List String) (id : String) → is_empty (gs ++ id ∷ []) ≡ false
not_empty-append [] id = refl
not_empty-append (g ∷ gs) id = refl

pub overwrite-KeepsScope : (p : Plugin) → KeepsScope (overwrite p)
overwrite-KeepsScope p = record {
  name = λ q. ground arith;
  service = λ q. ground arith;
  route = λ q. ground arith;
  consumer = λ q. ground arith;
}

pub same_id_self : (o : Option String) → o ≢ none → same_id o o ≡ true
same_id_self none h = absurd (h refl)
same_id_self (some i) h = (eq_iff i i).1 refl

pub ok_of_to_error {ℓ} : {A : Type ℓ} (r : Result A) → to_error r ≡ none → (a : A) × (r ≡ ok a)
ok_of_to_error (ok a) e = (a, refl)
ok_of_to_error (err x) e = cc

-- The ACL that is created for a route is a full match of the search for that route's ACL.
created_FullMatch :
    (route_id : String) (c : AclConfig) (new : Plugin)
    → route_id ≢ ""
    → IsCreated route_id (new_acl c) new
    → FullMatch "" route_id "" acl_plugin new
unfolding scope_matches
created_FullMatch route_id c new named kept = record {
  named = kept.name;
  by_consumer = rw kept.consumer;
  by_route = rw kept.route (ground (arith, eq_iff route_id "", eq_iff route_id route_id));
  by_service = rw kept.service;
}

-- In the state the search for the ACL of the route finds a plugin that allows the group.
abbrev pub IsGranted :
    (decode : Configuration → AclConfig) (K : AdminApi)
    → PluginStore K
    → String
    → String
    → String
    → K.State
    → Type 0
IsGranted decode K P workspace route_id id s =
    (q : Plugin) × (get_specific_plugin (P.plugins s workspace) "" route_id "" acl_plugin
      ≡ ret (ok q))
    × Any (λ g. g ≡ id) (decode q.config).allowed_groups

module _ (decode : Configuration → AclConfig) (K : AdminApi) (k : KongClient) (P : PluginStore K)
    (reads : ReadsBack decode) (ctx : Context) (client : Client)
    (connected : get_workspace_client k ctx ≡ some client) (route_id id : String)
    (named : route_id ≢ "") where
  abbrev Granted : K.State → Type 0
  Granted = IsGranted decode K P client.workspace route_id id

  create-IsGranted :
      (s : K.State) (c : AclConfig) (e : String)
      → Any (λ g. g ≡ id) c.allowed_groups
      → get_specific_plugin (P.plugins s client.workspace) "" route_id "" acl_plugin ≡ ret (err e)
      → (create_acl K k ctx c route_id s).0 ≡ ret none
      → Granted (create_acl K k ctx c route_id s).1
  unfolding create_acl
  create-IsGranted s c e m missing h =
      let (q, made) =
        ok_of_to_error (K.plugins_create_for_route client.workspace route_id (new_acl c) s).0
          (ret-injective (rw connected at h)) in
      let (new, before, after, split, inserted, kept) =
        P.created client.workspace route_id (new_acl c) q s made in
      (
        new,
        rw (connected, inserted)
            (get_specific_plugin_inserted "" route_id "" acl_plugin before after new e
              (rw split at missing) (created_FullMatch route_id c new named kept)),
        rw (kept.config, reads c) m,
      )

  update-IsGranted :
      (s : K.State) (p : Plugin) (c : AclConfig)
      → Any (λ g. g ≡ id) c.allowed_groups
      → is_empty c.allowed_groups ≡ false
      → get_specific_plugin (P.plugins s client.workspace) "" route_id "" acl_plugin ≡ ret (ok p)
      → (update_or_delete_acl K k ctx p c route_id s).0 ≡ ret none
      → Granted (update_or_delete_acl K k ctx p c route_id s).1
  unfolding update_or_delete_acl
  update-IsGranted s p c m full found h =
      let (q, made) =
        ok_of_to_error (K.plugins_update_for_route client.workspace route_id (enabled_acl p c) s).0
          (ret-injective (rw (full, connected) at h)) in
      let (identified, written) = P.updated client.workspace route_id (enabled_acl p c) q s made in
      (
        overwrite (enabled_acl p c) p,
        rw (full, connected, written)
            (get_specific_plugin-map "" route_id "" acl_plugin (overwrite (enabled_acl p c))
                (P.plugins s client.workspace) (overwrite-KeepsScope (enabled_acl p c))
              ∙ rw found refl),
        rw (same_id_self p.id identified) (rw (reads c) m),
      )

  unless-IsGranted :
      (s : K.State) (p : Plugin) (access : Option ℕ)
      → position id (decode p.config).allowed_groups ≡ access
      → get_specific_plugin (P.plugins s client.workspace) "" route_id "" acl_plugin ≡ ret (ok p)
      → (grant_unless K k ctx p route_id id (decode p.config) access s).0 ≡ ret none
      → Granted (grant_unless K k ctx p route_id id (decode p.config) access s).1
  unfolding grant_unless
  unless-IsGranted s p (some i) present found h =
      (p, found, found_position id (decode p.config).allowed_groups i present)
  unless-IsGranted s p none absent found h =
      let groups = (decode p.config).allowed_groups in
      update-IsGranted s p (record (decode p.config) { allowed_groups = groups ++ id ∷ [] })
        (Any-append_right _ groups (id ∷ []) (inl refl)) (not_empty-append groups id) found h

  found-IsGranted :
      (s : K.State) (r : Result Plugin)
      → get_specific_plugin (P.plugins s client.workspace) "" route_id "" acl_plugin ≡ ret r
      → (add_found decode K k ctx route_id id r s).0 ≡ ret none
      → Granted (add_found decode K k ctx route_id id r s).1
  unfolding add_found grant_access check_access
  found-IsGranted s (ok p) found h =
      unless-IsGranted s p (position id (decode p.config).allowed_groups) refl found h
  found-IsGranted s (err e) missing h = create-IsGranted s _ e (inl refl) missing h

  searched-IsGranted :
      (s : K.State) (ps : List Plugin) (r : Ret (Result Plugin))
      → ps ≡ P.plugins s client.workspace
      → get_specific_plugin ps "" route_id "" acl_plugin ≡ r
      → (continue (r, s) (add_found decode K k ctx route_id id)).0 ≡ ret none
      → Granted (continue (r, s) (add_found decode K k ctx route_id id)).1
  searched-IsGranted s ps panic same e h = cc
  searched-IsGranted s ps (ret r) same e h = found-IsGranted s r (rw same at e) h

  listed-IsGranted :
      (s : K.State) (answer : Result (List Plugin))
      → ((ps : List Plugin) → answer ≡ ok ps → ps ≡ P.plugins s client.workspace)
      → (add_listed decode K k ctx route_id id answer s).0 ≡ ret none
      → Granted (add_listed decode K k ctx route_id id answer s).1
  unfolding add_listed
  listed-IsGranted s (err e) same h = cc
  listed-IsGranted s (ok ps) same h = searched-IsGranted s ps _ (same ps refl) refl h

  -- Where AddRouteACL returns no error, the search for the ACL of the route afterwards finds a plugin
  -- that allows the application, whatever was there before. The gateway answers as documented, the
  -- route has an ID and the context's workspace has a client.
  pub add_route_acl-IsGranted :
      (s : K.State)
      → (add_route_acl decode K k ctx route_id id s).0 ≡ ret none
      → IsGranted decode K P client.workspace route_id id
          (add_route_acl decode K k ctx route_id id s).1
  unfolding add_route_acl
  add_route_acl-IsGranted s h =
      rw connected
        (listed-IsGranted (K.plugins_list_all client.workspace s).1 _ same (rw connected at h))
    where
      same :
          (ps : List Plugin)
          → (K.plugins_list_all client.workspace s).0 ≡ ok ps
          → ps ≡ P.plugins (K.plugins_list_all client.workspace s).1 client.workspace
      same ps e = let (shown, kept) = P.listed client.workspace s ps e in rw kept shown
