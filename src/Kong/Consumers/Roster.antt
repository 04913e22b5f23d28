-- ===== src/Kong/Consumers/Roster.antt =====
-- A gateway that keeps the IDs of its consumers in a list: the documented behaviour can be met.
use agents_kong.Prelude.{
  String, ◌≡◌, refl, Bool, true, false, none, some, List, [], ◌∷◌, ◌==◌, arith, if◌then◌else◌,
}
use agents_kong.Prelude.Go.{ok, err}
use agents_kong.Prelude.Exec.{Call}
use agents_kong.Kong.Klib.{AdminApi, Consumer}
use agents_kong.Kong.Consumers.Behaviour.{ConsumerStore}

abbrev pub member : String → List String → Bool
member id [] = false
member id (c ∷ cs) = if c == id then true else member id cs

abbrev pub remove : String → List String → List String
remove id [] = []
remove id (c ∷ cs) = let rest = remove id cs in if c == id then rest else c ∷ rest

abbrev consumer : String → Consumer
consumer id = record { id = some id; custom_id = none; username = none }

abbrev get : String → Call (List String) Consumer
get id s = if member id s then (ok (consumer id), s) else (err "not found", s)

abbrev pub roster : AdminApi
roster = record {
  State = List String;
  consumers_get = λ ws. get;
  consumers_create = λ ws c s. (ok c, s);
  consumers_delete = λ ws id s. (ok tt, remove id s);
  acls_create = λ ws id g s. (ok g, s);
  oauth2_delete = λ ws c id s. (ok tt, s);
  basic_auths_delete = λ ws c id s. (ok tt, s);
  key_auths_delete = λ ws c id s. (ok tt, s);
  oauth2_create = λ ws c o s. (ok o, s);
  basic_auths_create = λ ws c b s. (ok b, s);
  key_auths_create = λ ws c a s. (ok a, s);
  plugins_list_all = λ ws s. (ok [], s);
  plugins_create_for_route = λ ws route_id p s. (ok p, s);
  plugins_update_for_route = λ ws route_id p s. (ok p, s);
  plugins_delete_for_route = λ ws route_id id s. (ok tt, s);
}

member-remove : (id : String) (s : List String) → member id (remove id s) ≡ false
member-remove id [] = refl
member-remove id (c ∷ cs) = ground (arith, member-remove id cs)

remove_keeps :
    (id other : String) (s : List String) → member id s ≡ false → member id (remove other s) ≡ false
remove_keeps id other [] h = refl
remove_keeps id other (c ∷ cs) h = ground (arith, remove_keeps id other cs)

missing_lem :
    (id e : String) (s : List String) → (get id s).0 ≡ err e → member id (get id s).1 ≡ false
missing_lem id e s h = ground arith

get_keeps_lem :
    (id other : String) (s : List String) → member id s ≡ false → member id (get other s).1 ≡ false
get_keeps_lem id other s h = ground arith

pub roster_store : ConsumerStore roster
roster_store = record {
  IsAbsent = λ ws id s. member id s ≡ false;
  is_not_found = λ e. e == "not found";
  missing = λ ws id e s h n. missing_lem id e s h;
  deleted = λ ws id s h. member-remove id s;
  get_keeps = λ ws id ws' id' s h. get_keeps_lem id id' s h;
  delete_keeps = λ ws id ws' id' s h. remove_keeps id id' s h;
}
