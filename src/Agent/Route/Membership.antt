-- ===== src/Agent/Route/Membership.antt =====
-- Which endpoints a route has.
use agents_kong.Prelude.{
  String, ◌≡◌, ◌⊎◌, ◌↔◌, inl, inr, refl, sym, subst, Bool, true, false, not, ◌&&◌, List, [], ◌∷◌,
  ◌==◌, arith, eq_iff, is_empty, if◌then◌else◌, All, All-append, All-map, All-found, Any,
  Any-append_left, Any-append_right,
}
use agents_kong.Prelude.Int.{is_zero, int32}
use agents_kong.Agent.Route.{
  http_scheme, https_scheme, EndpointDefinition, KongRoute, protocol_endpoints, protocols_loop,
  handle_protocols, full_path, paths_loop, handle_paths, hosts_loop, get_endpoints,
}
use agents_kong.Agent.Route.Endpoints.{endpoints_of_no_hosts, endpoints_of_hosts}

optional-All {ℓ} :
    {A : Type ℓ} (P : A → Type 0) (b : Bool) (x : A)
    → (b ≡ true → P x)
    → All P (if b then x ∷ [] else [])
optional-All P true x h = (h refl, tt)
optional-All P false x h = tt

optional_any {ℓ} :
    {A : Type ℓ} (P : A → Type 0) (b : Bool) (x : A)
    → b ≡ true
    → P x
    → Any P (if b then x ∷ [] else [])
optional_any P true x on h = inl h
optional_any P false x on h = cc

module _ (r : KongRoute) where
  -- The protocol is http or https, its port is configured, and the endpoint has that port.
  abbrev pub IsServed : EndpointDefinition → Type 0
  IsServed e =
      ((e.protocol ≡ http_scheme) × (e.port ≡ int32 r.http_port) × (is_zero r.http_port ≡ false))
      ⊎ ((e.protocol ≡ https_scheme)
          × (e.port ≡ int32 r.https_port)
          × (is_zero r.https_port ≡ false))

  -- An endpoint of the host, the path and the protocol.
  record IsServedAt (host path protocol : String) (e : EndpointDefinition) : Type 0 where
    pub at_host : e.host ≡ host
    pub at_path : e.base_path ≡ path
    pub by_protocol : e.protocol ≡ protocol
    pub served : IsServed e

  protocol_endpoints_sound :
      (host path p : String) → All (IsServedAt host path p) (protocol_endpoints r host path p)
  unfolding protocol_endpoints
  protocol_endpoints_sound host path p =
      All-append (IsServedAt host path p) _ _
        (optional-All _ (p == http_scheme && not (is_zero r.http_port)) _ (λ h. record {
          at_host = refl;
          at_path = refl;
          by_protocol = ground (arith, eq_iff p http_scheme);
          served = inl (refl, refl, ground arith);
        }))
        (optional-All _ (p == https_scheme && not (is_zero r.https_port)) _ (λ h. record {
          at_host = refl;
          at_path = refl;
          by_protocol = ground (arith, eq_iff p https_scheme);
          served = inr (refl, refl, ground arith);
        }))

  protocol_endpoints_complete :
      (host path p : String) (e : EndpointDefinition)
      → IsServedAt host path p e
      → Any (λ x. x ≡ e) (protocol_endpoints r host path p)
  unfolding protocol_endpoints
  protocol_endpoints_complete host path p e h = from h.served
    where
      from : IsServed e → Any (λ x. x ≡ e) (protocol_endpoints r host path p)
      from (inl (same, port, on)) = Any-append_left _ _ _ (
          optional_any _ (p == http_scheme && not (is_zero r.http_port)) _
            (ground (arith, eq_iff p http_scheme, h.by_protocol)) (cc (h.at_host, h.at_path)))
      from (inr (same, port, on)) = Any-append_right _ _ _ (
          optional_any _ (p == https_scheme && not (is_zero r.https_port)) _
            (ground (arith, eq_iff p https_scheme, h.by_protocol)) (cc (h.at_host, h.at_path)))

  protocols_loop_sound :
      (host path : String) (ps : List String)
      → All
          (λ e. (e.host ≡ host) × (e.base_path ≡ path) × Any (λ p. e.protocol ≡ p) ps × IsServed e)
          (protocols_loop r host path ps)
  unfolding protocols_loop
  protocols_loop_sound host path [] = tt
  protocols_loop_sound host path (p ∷ ps) =
      All-append _ _ _
        (All-map _ (λ e h. (h.at_host, h.at_path, inl h.by_protocol, h.served))
          (protocol_endpoints_sound host path p))
        (All-map _ (λ e (h, q, m, s). (h, q, inr m, s)) (protocols_loop_sound host path ps))

  protocols_loop_complete :
      (host path : String) (ps : List String) (e : EndpointDefinition)
      → e.host ≡ host
      → e.base_path ≡ path
      → Any (λ p. e.protocol ≡ p) ps
      → IsServed e
      → Any (λ x. x ≡ e) (protocols_loop r host path ps)
  unfolding protocols_loop
  protocols_loop_complete host path [] e h q m s = elim m [ ]
  protocols_loop_complete host path (p ∷ ps) e h q (inl m) s = Any-append_left _ _ _ (
      protocol_endpoints_complete host path p e
        (record { at_host = h; at_path = q; by_protocol = m; served = s }))
  protocols_loop_complete host path (p ∷ ps) e h q (inr m) s =
      Any-append_right _ (protocol_endpoints r host path p) _
        (protocols_loop_complete host path ps e h q m s)

  -- An endpoint of one of the hosts, of one of the paths under the base path, and of one of the
  -- listed protocols, served on that protocol's port.
  pub record IsListed (hosts : List String) (base : String) (paths : List String)
      (e : EndpointDefinition) : Type 0 where
    pub host : Any (λ h. e.host ≡ h) hosts
    pub path : Any (λ p. e.base_path ≡ full_path base p) paths
    pub protocol : Any (λ p. e.protocol ≡ p) r.protocols
    pub served : IsServed e

  paths_loop_sound :
      (host base : String) (paths : List String)
      → All (IsListed (host ∷ []) base paths) (paths_loop r host base paths)
  unfolding paths_loop handle_protocols
  paths_loop_sound host base [] = tt
  paths_loop_sound host base (p ∷ ps) =
      All-append _ _ _
        (All-map _
          (λ e (h, q, m, s). record { host = inl h; path = inl q; protocol = m; served = s })
          (protocols_loop_sound host (full_path base p) r.protocols))
        (All-map _
          (λ e l. record {
            host = l.host;
            path = inr l.path;
            protocol = l.protocol;
            served = l.served;
          })
          (paths_loop_sound host base ps))

  paths_loop_complete :
      (host base : String) (paths : List String) (e : EndpointDefinition)
      → e.host ≡ host
      → Any (λ p. e.base_path ≡ full_path base p) paths
      → Any (λ p. e.protocol ≡ p) r.protocols
      → IsServed e
      → Any (λ x. x ≡ e) (paths_loop r host base paths)
  unfolding paths_loop handle_protocols
  paths_loop_complete host base [] e h q m s = elim q [ ]
  paths_loop_complete host base (p ∷ ps) e h (inl q) m s =
      Any-append_left _ _ _ (protocols_loop_complete host (full_path base p) r.protocols e h q m s)
  paths_loop_complete host base (p ∷ ps) e h (inr q) m s =
      Any-append_right _ (protocols_loop r host (full_path base p) r.protocols) _
        (paths_loop_complete host base ps e h q m s)

  hosts_loop_sound : (hosts : List String) → All (IsListed hosts "" r.paths) (hosts_loop r hosts)
  unfolding hosts_loop handle_paths
  hosts_loop_sound [] = tt
  hosts_loop_sound (h ∷ hs) =
      All-append _ _ _
        (All-map _
          (λ e l. record {
            host = first e l.host;
            path = l.path;
            protocol = l.protocol;
            served = l.served;
          })
          (paths_loop_sound h "" r.paths))
        (All-map _
          (λ e l. record {
            host = inr l.host;
            path = l.path;
            protocol = l.protocol;
            served = l.served;
          })
          (hosts_loop_sound hs))
    where
      first :
          (e : EndpointDefinition) → Any (λ g. e.host ≡ g) (h ∷ []) → Any (λ g. e.host ≡ g) (h ∷ hs)
      first e (inl same) = inl same
      first e (inr none) = elim none [ ]

  hosts_loop_complete :
      (hosts : List String) (e : EndpointDefinition)
      → Any (λ h. e.host ≡ h) hosts
      → Any (λ p. e.base_path ≡ full_path "" p) r.paths
      → Any (λ p. e.protocol ≡ p) r.protocols
      → IsServed e
      → Any (λ x. x ≡ e) (hosts_loop r hosts)
  unfolding hosts_loop handle_paths
  hosts_loop_complete [] e h q m s = elim h [ ]
  hosts_loop_complete (host ∷ hs) e (inl h) q m s =
      Any-append_left _ _ _ (paths_loop_complete host "" r.paths e h q m s)
  hosts_loop_complete (host ∷ hs) e (inr h) q m s =
      Any-append_right _ (paths_loop r host "" r.paths) _ (hosts_loop_complete hs e h q m s)

  mem_of_no_hosts :
      (e : EndpointDefinition)
      → r.hosts ≡ []
      → Any (λ x. x ≡ e) (get_endpoints r) ↔ IsListed (r.default_host ∷ []) r.base_path r.paths e
  unfolding handle_paths
  mem_of_no_hosts e nil = (
    λ m.
        All-found _ (get_endpoints r) e
          (subst (All _) (sym (endpoints_of_no_hosts r nil))
            (paths_loop_sound r.default_host r.base_path r.paths))
          m,
    λ l. subst (Any (λ x. x ≡ e)) (sym (endpoints_of_no_hosts r nil)) (only l.host l),
  )
    where
      only :
          Any (λ g. e.host ≡ g) (r.default_host ∷ [])
          → IsListed (r.default_host ∷ []) r.base_path r.paths e
          → Any (λ x. x ≡ e) (paths_loop r r.default_host r.base_path r.paths)
      only (inl h) l =
          paths_loop_complete r.default_host r.base_path r.paths e h l.path l.protocol l.served
      only (inr none) l = elim none [ ]

  mem_of_hosts :
      (e : EndpointDefinition) (h : String) (hs : List String)
      → r.hosts ≡ h ∷ hs
      → Any (λ x. x ≡ e) (get_endpoints r) ↔ IsListed (h ∷ hs) "" r.paths e
  mem_of_hosts e h hs cons = (
    λ m.
        All-found _ (get_endpoints r) e
          (subst (All _) (sym (endpoints_of_hosts r h hs cons)) (hosts_loop_sound (h ∷ hs))) m,
    λ l.
        subst (Any (λ x. x ≡ e)) (sym (endpoints_of_hosts r h hs cons))
          (hosts_loop_complete (h ∷ hs) e l.host l.path l.protocol l.served),
  )

  -- The endpoints are exactly those of a host of the route, a path of it and a listed protocol that
  -- is http or https with a port that is not zero, on that port. A route without hosts stands with
  -- the default host, and only then is the configured base path put in front of its paths.
  pub get_endpoints_iff :
      (e : EndpointDefinition)
      → Any (λ x. x ≡ e) (get_endpoints r)
        ↔ IsListed
            (if is_empty r.hosts then r.default_host ∷ [] else r.hosts)
            (if is_empty r.hosts then r.base_path else "")
            r.paths
            e
  get_endpoints_iff e = go r.hosts refl
    where
      go :
          (hosts : List String)
          → r.hosts ≡ hosts
          → Any (λ x. x ≡ e) (get_endpoints r)
            ↔ IsListed
                (if is_empty hosts then r.default_host ∷ [] else hosts)
                (if is_empty hosts then r.base_path else "")
                r.paths
                e
      go [] nil = mem_of_no_hosts e nil
      go (h ∷ hs) cons = mem_of_hosts e h hs cons
