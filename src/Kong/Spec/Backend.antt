-- ===== src/Kong/Spec/Backend.antt =====
-- How the loop over the paths of the backend ends, and when the backend's part of GetSpecForService
-- panics.
use agents_kong.Prelude.{
  String, ◌≡◌, ◌≢◌, ◌⊎◌, ◌↔◌, inl, inr, refl, Bool, true, false, Option, none, some, List, [], ◌∷◌,
  ◌++◌, is_empty, ap, sym, ◌∙◌, if◌then◌else◌,
}
use mathlib.Core.List.{append-nil}
use agents_kong.Prelude.Go.{Result, ok, err, Ret, ret, panic}
use agents_kong.Prelude.Exec.{Exec, continue}
use agents_kong.Common.{Context}
use agents_kong.Kong.Klib.{Service}
use agents_kong.Kong.Client.{KongClient}
use agents_kong.Kong.Spec.{
  Outside, Spec, get_spec, send_spec, backend_endpoint, or_next, or_unstructured, backend_loop,
  get_spec_from_backend, get_spec_from_url, spec_by_source, get_spec_for_service,
}

module _ (outside : Outside) (k : KongClient) where
  abbrev Returns : Ret Spec × outside.State → Type 0
  Returns out = (spec : Spec) × (out.0 ≡ ret spec)

  if-Returns :
      (b : Bool) (m n : Exec outside.State Spec) (s : outside.State)
      → Returns (m s)
      → Returns (n s)
      → Returns ((if b then m else n) s)
  if-Returns true m n s p q = p
  if-Returns false m n s p q = q

  -- Every path of the list is asked for in turn, from one state to the other, and none of them has a
  -- specification.
  pub data Fruitless (url : String) : List String → outside.State → outside.State → Type 0 where
    done : {s : outside.State} → Fruitless url [] s s
    asked :
        {x : String} {xs : List String} {s t u : outside.State}
        → get_spec outside k (backend_endpoint outside k url x) false s ≡ (ret (ok none), t)
        → Fruitless url xs t u
        → Fruitless url (x ∷ xs) s u

  loop-Fruitless :
      (url : String) (xs ys : List String) (s t : outside.State)
      → Fruitless url xs s t
      → backend_loop outside k url (xs ++ ys) s ≡ backend_loop outside k url ys t
  unfolding backend_loop
  loop-Fruitless url xs ys s t done = refl
  loop-Fruitless url (y ∷ xs) ys s t (asked e later) =
      ap (λ out. continue out (or_next outside k (backend_loop outside k url (xs ++ ys)))) e
      ∙ loop-Fruitless url xs ys _ t later

  loop_stops :
      (url x : String) (ys : List String) (answer : Spec) (s t : outside.State)
      → get_spec outside k (backend_endpoint outside k url x) false s ≡ (ret answer, t)
      → answer ≢ ok none
      → backend_loop outside k url (x ∷ ys) s ≡ (ret answer, t)
  unfolding backend_loop
  loop_stops url x ys (err m) s t e found =
      ap (λ out. continue out (or_next outside k (backend_loop outside k url ys))) e
  loop_stops url x ys (ok (some spec)) s t e found =
      ap (λ out. continue out (or_next outside k (backend_loop outside k url ys))) e
  loop_stops url x ys (ok none) s t e found = absurd (found refl)

  -- The loop answers with the first path that has a specification or fails: where the paths before
  -- it have none, its specification or its error is the answer, and the later paths are not asked
  -- for. The loop over the paths before it alone gives no specification and no error.
  pub backend_loop_first :
      (url : String) (xs : List String) (x : String) (ys : List String) (answer : Spec)
      (s t u : outside.State)
      → Fruitless url xs s t
      → get_spec outside k (backend_endpoint outside k url x) false t ≡ (ret answer, u)
      → answer ≢ ok none
      → (backend_loop outside k url (xs ++ x ∷ ys) s ≡ (ret answer, u))
        × (backend_loop outside k url xs s ≡ (ret (ok none), t))
  unfolding backend_loop
  backend_loop_first url xs x ys answer s t u before e found = (
    loop-Fruitless url xs (x ∷ ys) s t before ∙ loop_stops url x ys answer t u e found,
    ap (λ list. backend_loop outside k url list s) (sym (append-nil xs))
        ∙ loop-Fruitless url xs [] s t before,
  )

  sent : (r : Result String) (s : outside.State) → Returns (send_spec outside k false r s)
  unfolding send_spec
  sent (err e) s = (_, refl)
  sent (ok request) s = (_, refl)

  loop-Returns :
      (url : String) (paths : List String) (s : outside.State)
      → Returns (backend_loop outside k url paths s)
  unfolding backend_loop get_spec
  loop-Returns url [] s = (_, refl)
  loop-Returns url (x ∷ xs) s =
      go _ (sent (outside.new_request (backend_endpoint outside k url x)) s) (loop-Returns url xs)
    where
      go :
          (out : Ret Spec × outside.State)
          → Returns out
          → ((s : outside.State) → Returns (backend_loop outside k url xs s))
          → Returns (continue out (or_next outside k (backend_loop outside k url xs)))
      go (panic, s) (a, e) later = cc
      go (ret (err e), s) r later = (_, refl)
      go (ret (ok none), s) r later = later s
      go (ret (ok (some spec)), s) r later = (_, refl)

  backend-Returns :
      (url : String) (s : outside.State) → Returns (get_spec_from_backend outside k url s)
  unfolding get_spec_from_backend
  backend-Returns url s =
      if-Returns (is_empty k.spec_url_paths) (λ s. (ret (ok none), s))
        (backend_loop outside k url k.spec_url_paths) s (_, refl)
        (loop-Returns url k.spec_url_paths s)

  returned_lem :
      (out : Ret Spec × outside.State)
      → Returns out
      → (continue out (λ spec s. (ret (or_unstructured outside k spec), s))).0 ≢ panic
  returned_lem (ret a, s) r e = cc
  returned_lem (panic, s) (a, h) e = cc

  url_panics :
      (p h path : Option String) (s : outside.State)
      → (get_spec_from_url outside k p h path s).0 ≡ panic
        ↔ ((p ≡ none) × (h ≢ none)) ⊎ ((p ≢ none) × (h ≡ none))
  unfolding get_spec_from_url
  url_panics none none path s =
      (λ e. cc, λ e. elim e [ inl (a, b) ↦ absurd (b refl) | inr (a, b) ↦ absurd (a refl) ])
  url_panics none (some h) path s = (λ e. inl (refl, λ x. cc), λ e. refl)
  url_panics (some p) none path s = (λ e. inr (λ x. cc, refl), λ e. refl)
  url_panics (some p) (some h) path s = (
    λ e. absurd (returned_lem _ (backend-Returns _ s) e),
    λ e. elim e [ inl (a, b) ↦ cc | inr (a, b) ↦ cc ],
  )

  -- Without a local path and the developer portal, GetSpecForService of a service with a name panics
  -- exactly where one of the protocol and the host is nil and the other is not.
  pub get_spec_for_service_panics_iff :
      (ctx : Context) (service : Service) (name : String) (s : outside.State)
      → service.name ≡ some name
      → k.spec_local_path ≡ ""
      → k.dev_portal_enabled ≡ false
      → (get_spec_for_service outside k ctx service s).0 ≡ panic
        ↔ ((service.protocol ≡ none) × (service.host ≢ none))
          ⊎ ((service.protocol ≢ none) × (service.host ≡ none))
  unfolding get_spec_for_service spec_by_source
  get_spec_for_service_panics_iff ctx service name s named local portal =
      rw (named, local, portal) (url_panics service.protocol service.host service.path s)
