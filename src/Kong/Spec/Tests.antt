-- ===== src/Kong/Spec/Tests.antt =====
-- A service without a host, and a backend that answers no request.
use agents_kong.Prelude.{
  String, ◌≡◌, ◌≢◌, ◌⊎◌, ◌↔◌, refl, false, true, none, some, List, [], ◌∷◌, ◌==◌, if◌then◌else◌,
}
use agents_kong.Prelude.Go.{ok, err, ret, panic}
use agents_kong.Prelude.Text.{has_prefix, trim_prefix, trim_suffix}
use agents_kong.Common.{background}
use agents_kong.Kong.Klib.{Service}
use agents_kong.Kong.Client.{KongClient}
use agents_kong.Kong.Spec.{
  Outside, Spec, get_spec, backend_endpoint, backend_loop, get_spec_for_service,
}
use agents_kong.Kong.Spec.Backend.{
  Fruitless, done, asked, backend_loop_first, get_spec_for_service_panics_iff,
}

abbrev outside : Outside
outside = record {
  State = List String;
  join = λ dir file. file;
  is_not_exist = λ path s. (true, s);
  read_file = λ path s. (err "not found", s);
  new_request = λ endpoint. ok endpoint;
  execute = λ request s. (ok (record { status_code = 404; body = ok "" }), request ∷ s);
  documents = λ bytes. ok [];
  contents = λ bytes. ok bytes;
  parses = λ content. true;
}

abbrev kong : KongClient
kong = record {
  workspace_clients = [];
  kong_admin_endpoint = "http://kong:8001";
  spec_url_paths = "openapi.json" ∷ [];
  spec_local_path = "";
  dev_portal_enabled = false;
  create_unstructured_api = false;
}

abbrev hostless : Service
hostless = record {
  id = some "s1";
  name = some "pets";
  protocol = some "http";
  host = none;
  path = none;
  tags = [];
}

abbrev requests : List String
requests = []

get_spec_for_service_panics_iff_example :
    (get_spec_for_service outside kong background hostless requests).0 ≡ panic
    ↔ ((hostless.protocol ≡ none) × (hostless.host ≢ none))
      ⊎ ((hostless.protocol ≢ none) × (hostless.host ≡ none))
get_spec_for_service_panics_iff_example =
    get_spec_for_service_panics_iff outside kong background hostless "pets" requests refl refl refl

-- The second path has no specification, and the request for the third fails.
abbrev failing : Outside
failing = record outside {
  new_request = λ endpoint. if endpoint == "http://pets/c.json" then err "bad" else ok endpoint;
}

abbrev asked_for : List String
asked_for = "http://pets/b.json" ∷ "http://pets/a.json" ∷ []

no_specs : Fruitless failing kong "http://pets" ("a.json" ∷ "b.json" ∷ []) requests asked_for
unfolding get_spec trim_suffix trim_prefix has_prefix
no_specs = asked refl (asked refl done)

fails :
    get_spec failing kong (backend_endpoint failing kong "http://pets" "c.json") false asked_for
    ≡ (ret (err "bad"), asked_for)
unfolding get_spec trim_suffix trim_prefix has_prefix
fails = refl

an_error : ◌≢◌ {A = Spec} (err "bad") (ok none)
an_error e = cc

backend_loop_first_example :
    (backend_loop failing kong "http://pets"
        ("a.json" ∷ "b.json" ∷ "c.json" ∷ "d.json" ∷ [])
        requests
      ≡ (ret (err "bad"), asked_for))
    × (backend_loop failing kong "http://pets" ("a.json" ∷ "b.json" ∷ []) requests
        ≡ (ret (ok none), asked_for))
backend_loop_first_example =
    backend_loop_first failing kong "http://pets" ("a.json" ∷ "b.json" ∷ []) "c.json"
      ("d.json" ∷ []) (err "bad") requests asked_for asked_for no_specs fails an_error
