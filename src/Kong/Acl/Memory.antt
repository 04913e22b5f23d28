-- ===== src/Kong/Acl/Memory.antt =====
-- A gateway that keeps the plugins of one workspace in a list: the documented behaviour can be met.
use mathlib.Core.List.{append-nil}
use agents_kong.Prelude.{
  String, ◌≡◌, ◌≢◌, refl, sym, Bool, true, false, Option, none, some, List, [], ◌∷◌, ◌++◌, map,
}
use agents_kong.Prelude.Go.{Result, ok, err}
use agents_kong.Prelude.Exec.{Call}
use agents_kong.Kong.Klib.{AdminApi, Value, texts, flag, Configuration, Plugin}
use agents_kong.Kong.Acl.{AclConfig, acl_configuration}
use agents_kong.Kong.Acl.Store.{overwrite, drop_id, PluginStore, ReadsBack}

abbrev on_route : String → Plugin → Plugin
on_route route_id p = record p {
  id = some "new";
  enabled = some true;
  route = some (record { id = some route_id });
}

abbrev update : Plugin → Option String → Call (List Plugin) Plugin
update p none s = (err "ID cannot be nil", s)
update p (some id) s = (ok p, map (overwrite p) s)

abbrev refuse {ℓ} : {A : Type ℓ} → List Plugin → Result A × List Plugin
refuse s = (err "not found", s)

abbrev pub memory : AdminApi
memory = record {
  State = List Plugin;
  consumers_get = λ ws id s. (err "not found", s);
  consumers_create = λ ws c s. (ok c, s);
  consumers_delete = λ ws id s. (ok tt, s);
  acls_create = λ ws id g s. (ok g, s);
  oauth2_delete = λ ws c id s. (ok tt, s);
  basic_auths_delete = λ ws c id s. (ok tt, s);
  key_auths_delete = λ ws c id s. (ok tt, s);
  oauth2_create = λ ws c o s. (ok o, s);
  basic_auths_create = λ ws c b s. (ok b, s);
  key_auths_create = λ ws c a s. (ok a, s);
  plugins_list_all = λ ws s. (ok s, s);
  plugins_create_for_route = λ ws route_id p s. (ok p, s ++ on_route route_id p ∷ []);
  plugins_update_for_route = λ ws route_id p. update p p.id;
  plugins_delete_for_route = λ ws route_id id s. (ok tt, drop_id id s);
}

updated_lem :
    (p q : Plugin) (id : Option String) (s : List Plugin)
    → p.id ≡ id
    → (update p id s).0 ≡ ok q
    → (p.id ≢ none) × ((update p id s).1 ≡ map (overwrite p) s)
updated_lem p q none s same e = cc
updated_lem p q (some id) s same e = (λ missing. cc, refl)

pub memory_store : PluginStore memory
memory_store = record {
  plugins = λ s ws. s;
  listed = λ ws s ps e. (cc, refl);
  created = λ ws route_id p q s e. (
    on_route route_id p,
    s,
    [],
    sym (append-nil s),
    refl,
    record { name = refl; config = refl; service = refl; route = refl; consumer = refl },
  );
  updated = λ ws route_id p q s e. updated_lem p q p.id s refl e;
  deleted = λ ws route_id id s e. refl;
}

abbrev groups : Value → List String
groups (texts gs) = gs
groups _ = []

abbrev is_set : Value → Bool
is_set (flag b) = b
is_set _ = false

-- Reads a configuration that lists its three entries in the order of the program.
abbrev pub decode : Configuration → AclConfig
decode ((_, allow) ∷ (_, deny) ∷ (_, hide) ∷ []) = record {
  allowed_groups = groups allow;
  denied_groups = groups deny;
  hide_groups_header = is_set hide;
}
decode _ = record { allowed_groups = []; denied_groups = []; hide_groups_header = false }

pub decode-ReadsBack : ReadsBack decode
unfolding acl_configuration
decode-ReadsBack c = refl
