-- ===== src/Agent/Samples.antt =====
-- A concrete setting for the tests: a platform that keeps the schemes of a specification in a list,
-- a cache in memory, and a gateway with one workspace, one service and two routes.
use agents_kong.Prelude.{
  String, ◌≡◌, refl, ap, true, false, none, some, List, [], ◌∷◌, ◌++◌, ◌==◌, eq_refl, inl, inr,
  Bool-cases, if◌then◌else◌,
}
use agents_kong.Prelude.Text.{◌<>◌}
use agents_kong.Prelude.Dict.{Dict, lookup, insert, lookup-insert}
use agents_kong.Prelude.Int.{pos}
use agents_kong.Prelude.Go.{ok, err, ret}
use agents_kong.Config.{ProxyConfig}
use agents_kong.Kong.Klib.{Plugin, Route, Service}
use agents_kong.Kong.AuthPlugins.{Json}
use agents_kong.Agent.Sdk.{KongApi, Platform, SecurityScheme, ServiceBodyBuilder}
use agents_kong.Agent.Publish.{CacheApi}
use agents_kong.Agent.Publish.Change.{Stored, LawfulCache}
use agents_kong.Agent.Service.{Outside}
use agents_kong.Agent.Service.Steady.{StandsStill}

abbrev joined : List String → String
joined [] = ""
joined (t ∷ ts) = t <> joined ts

-- The checksum is made of what the tests change: the stage, the definitions and the bytes.
abbrev pub platform : Platform
platform = record {
  SpecProcessor = List SecurityScheme;
  ServiceBody = ServiceBodyBuilder;
  unstructured = "unstructured";
  oas2 = "oas2";
  oas3 = "oas3";
  published_status = "PUBLISHED";
  passthrough = "pass-through";
  kong = "Kong";
  new_spec_processor = λ content type. ok (some []);
  get_resource_type = λ spec. "oas3";
  get_description = λ spec. "";
  get_version = λ spec. "1";
  get_spec_bytes = λ spec. elim spec [ [] ↦ "" | _ ∷ _ ↦ "secured" ];
  is_oas = λ spec. true;
  strip_spec_auth = λ spec. [];
  add_security_schemes = λ scheme spec. spec ++ (scheme ∷ []);
  build = λ builder. if builder.title == "broken" then err "no body" else ok builder;
  url_string = λ scheme host path. scheme <> ("://" <> (host <> path));
  itoa = λ n. "443";
  sprint = λ api. api.stage <> (joined api.crds <> api.spec);
  sha256 = λ text. text;
}

abbrev pub json : Json
json = record {
  marshal = λ config. ok "";
  unmarshal_oauth = λ text. err "no oauth2";
  unmarshal_key_auth = λ text. ok (record {
    key_in_query = false;
    key_in_header = true;
    key_names = "apikey" ∷ [];
    anonymous = "";
    run_on_preflight = false;
    hide_credentials = false;
    key_in_body = false;
  });
  unmarshal_basic_auth = λ text. err "no basic-auth";
}

abbrev pub cache : CacheApi
cache = record {
  Content = Dict KongApi;
  get = λ key c. (ok (lookup key c), c);
  set = λ key api c. (ok tt, insert key api c);
}

lookup-same :
    (key : String) (api : KongApi) (c : Dict KongApi) → lookup key (insert key api c) ≡ some api
lookup-same key api c = rw (lookup-insert key key api c, eq_refl key)

Stored-lookup :
    (key : String) (c : Dict KongApi)
    → Stored cache key c
    → (api : KongApi) × (lookup key c ≡ some api)
Stored-lookup key c (api, e) =
    let item : ok (lookup key c) ≡ ok (some api) = ap (λ out. out.0) e in (api, cc)

grows-insert :
    (key other : String) (new : KongApi) (c : Dict KongApi)
    → Stored cache other c
    → Stored cache other (insert key new c)
grows-insert key other new c stored =
    let (old, e) = Stored-lookup other c stored in
    elim (Bool-cases (key == other)) [
      | inl same ↦ (new, rw (lookup-insert key other new c, same))
      | inr differs ↦ (old, rw (lookup-insert key other new c, differs, e))
    ]

pub cache_laws : LawfulCache cache
cache_laws = record {
  get_keeps = λ key c. refl;
  set_stores = λ key api c. (api, ap (λ item. (ok item, insert key api c)) (lookup-same key api c));
  set_grows = λ key api c other stored. grows-insert key other api c stored;
}

abbrev pub proxy : ProxyConfig
proxy = record {
  host = "proxy";
  ports = record {
    http = record { value = pos 80; disable = false };
    https = record { value = pos 443; disable = false };
  };
  base_path = "";
}

abbrev pub service : Service
service = record {
  id = some "s1";
  name = some "pets";
  protocol = some "http";
  host = some "pets.local";
  path = none;
  tags = "public" ∷ [];
}

-- a service whose body is not built
abbrev pub broken_service : Service
broken_service = record service { name = some "broken" }

abbrev pub pets_route : Route
pets_route = record {
  id = some "r1";
  name = some "list-pets";
  hosts = [];
  paths = "/pets" ∷ [];
  protocols = "https" ∷ [];
}

abbrev pub key_auth : Plugin
key_auth = record {
  id = some "p1";
  name = some "key-auth";
  enabled = some true;
  config = [];
  service = none;
  route = none;
  consumer = none;
}

-- The state of what is outside is the list of the bodies that were published.
abbrev pub outside : Outside platform
outside = record {
  World = List ServiceBodyBuilder;
  list_services = λ ctx w. (ret (ok (service ∷ [])), w);
  list_routes_for_service =
      λ ctx id w. (ret (ok (pets_route ∷ record pets_route { name = none } ∷ [])), w);
  get_spec_for_service = λ ctx s w. (ret (ok (some "openapi"), false), w);
  plugins_list_all = λ ctx w. (ret (ok (key_auth ∷ [])), w);
  publish_api = λ body w. (ok tt, w ++ (body ∷ []));
}

abbrev pub standing : StandsStill platform outside
standing = record {
  services = λ ctx. ret (ok (service ∷ []));
  routes = λ ctx id. ret (ok (pets_route ∷ record pets_route { name = none } ∷ []));
  specs = λ ctx s. ret (ok (some "openapi"), false);
  plugins = λ ctx. ret (ok (key_auth ∷ []));
  services_still = λ ctx w. refl;
  routes_still = λ ctx id w. refl;
  specs_still = λ ctx s w. refl;
  plugins_still = λ ctx w. refl;
}
