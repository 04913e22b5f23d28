-- ===== src/Agent/Route/Endpoints.antt =====
-- How many endpoints a route has.
use agents_kong.Prelude.{
  ℕ, suc, ◌+◌, ◌*◌, String, ◌≡◌, inl, inr, refl, ap, true, not, ◌&&◌, List, [], ◌∷◌, ◌==◌, arith,
  Bool-cases, is_empty, if◌then◌else◌, length, length-append, ◌∙◌,
}
use agents_kong.Prelude.Int.{is_zero}
use agents_kong.Agent.Route.{
  http_scheme, https_scheme, KongRoute, protocol_endpoints, protocols_loop, handle_protocols,
  full_path, paths_loop, handle_paths, hosts_loop, handle_hosts, get_endpoints,
}

nil_of_length {ℓ} : {A : Type ℓ} (xs : List A) → length xs ≡ 0 → xs ≡ []
nil_of_length [] e = refl
nil_of_length (x ∷ xs) e = absurd (omega arith)

nil_of_empty {ℓ} : {A : Type ℓ} (xs : List A) → is_empty xs ≡ true → xs ≡ []
nil_of_empty [] e = refl
nil_of_empty (x ∷ xs) e = cc

zero_factor : (n m : ℕ) → suc n * m ≡ 0 → m ≡ 0
zero_factor n m e = grind arith

module _ (r : KongRoute) where
  -- The protocols that are http or https with a port.
  pub usable : List String → ℕ
  usable [] = 0
  usable (p ∷ ps) =
      (if p == http_scheme && not (is_zero r.http_port) then 1 else 0)
      + (if p == https_scheme && not (is_zero r.https_port) then 1 else 0)
      + usable ps

  length-protocols_loop :
      (host path : String) (ps : List String) → length (protocols_loop r host path ps) ≡ usable ps
  unfolding protocols_loop protocol_endpoints usable
  length-protocols_loop host path [] = refl
  length-protocols_loop host path (p ∷ ps) =
      rw length-append (ground (arith, length-protocols_loop host path ps))

  length-paths_loop :
      (host base : String) (paths : List String)
      → length (paths_loop r host base paths) ≡ length paths * usable r.protocols
  unfolding paths_loop handle_protocols
  length-paths_loop host base [] = omega arith
  length-paths_loop host base (p ∷ ps) =
      rw
        (
          length-append,
          length-protocols_loop host (full_path base p) r.protocols,
          length-paths_loop host base ps,
        )
        (grind arith)

  length-hosts_loop :
      (hosts : List String)
      → length (hosts_loop r hosts) ≡ length hosts * (length r.paths * usable r.protocols)
  unfolding hosts_loop handle_paths
  length-hosts_loop [] = omega arith
  length-hosts_loop (h ∷ hs) =
      rw (length-append, length-paths_loop h "" r.paths, length-hosts_loop hs) (grind arith)

  -- Without hosts the endpoints are those of the default host under the base path.
  pub endpoints_of_no_hosts :
      r.hosts ≡ [] → get_endpoints r ≡ handle_paths r r.default_host r.base_path
  unfolding get_endpoints handle_hosts hosts_loop
  endpoints_of_no_hosts e = rw e

  -- Where one host gives no endpoint, no other host does.
  no_paths :
      (host base h : String) (hs : List String)
      → hosts_loop r (h ∷ hs) ≡ []
      → paths_loop r host base r.paths ≡ []
  no_paths host base h hs e = nil_of_length _ (
      rw (length-paths_loop host base r.paths)
        (zero_factor (length hs) _ (omega (arith, length-hosts_loop (h ∷ hs), ap length e))))

  -- With hosts they are those of the hosts: where the hosts give none, so does the default host.
  pub endpoints_of_hosts :
      (h : String) (hs : List String) → r.hosts ≡ h ∷ hs → get_endpoints r ≡ hosts_loop r (h ∷ hs)
  unfolding get_endpoints handle_hosts handle_paths
  endpoints_of_hosts h hs e = elim (Bool-cases (is_empty (hosts_loop r (h ∷ hs)))) [
    | inl none ↦
        let nil = nil_of_empty (hosts_loop r (h ∷ hs)) none in
        rw e (rw none (rw (no_paths r.default_host r.base_path h hs nil, nil)))
    | inr found ↦ rw e (rw found)
  ]

  -- A route has one endpoint for each host (or for the default host, if it names none), each path
  -- and each listed protocol that is http or https with a port that is not zero.
  length-get_endpoints :
      length (get_endpoints r)
      ≡ (if is_empty r.hosts then 1 else length r.hosts) * (length r.paths * usable r.protocols)
  unfolding handle_paths
  length-get_endpoints = go r.hosts refl
    where
      go :
          (hosts : List String)
          → r.hosts ≡ hosts
          → length (get_endpoints r)
            ≡ (if is_empty hosts then 1 else length hosts) * (length r.paths * usable r.protocols)
      go [] e = omega (
        arith,
        ap length (endpoints_of_no_hosts e),
        length-paths_loop r.default_host r.base_path r.paths,
      )
      go (h ∷ hs) e = ap length (endpoints_of_hosts h hs e) ∙ length-hosts_loop (h ∷ hs)
