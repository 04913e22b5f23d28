-- ===== src/Kong/Plugins/Tests.antt =====
-- GetEffectivePlugins at concrete lists.
use agents_kong.Prelude.{String, ◌≡◌, ◌≤◌, refl, true, none, some, List, [], ◌∷◌, All, Any, Option}
use agents_kong.Prelude.Dict.{Dict, lookup, insert}
use agents_kong.Prelude.Go.{ok, ret}
use agents_kong.Kong.Klib.{Ref, Plugin}
use agents_kong.Kong.Plugins.{most_specific, pointer, get_effective_plugins}
use agents_kong.Kong.Plugins.Specificity.{Applies, rank}
use agents_kong.Kong.Plugins.Effective.{
  effective_plugins_most_specific, effective_plugins_complete, effective_plugins_total,
}

abbrev ref : String → Option Ref
ref id = some (record { id = some id })

abbrev key_auth : String → Option Ref → Option Ref → Plugin
key_auth id service route = record {
  id = some id;
  name = some "key-auth";
  enabled = some true;
  config = [];
  service = service;
  route = route;
  consumer = none;
}

abbrev global_key : Plugin
global_key = key_auth "p1" none none

abbrev route_key : Plugin
route_key = key_auth "p2" none (ref "r1")

abbrev other_key : Plugin
other_key = key_auth "p3" none (ref "r2")

abbrev listed : List Plugin
listed = global_key ∷ route_key ∷ other_key ∷ []

abbrev kept : Dict (Option Plugin)
kept = ("key-auth", some route_key) ∷ []

run : get_effective_plugins "r1" "s1" (ok listed) ≡ ret (ok kept)
unfolding get_effective_plugins pointer lookup insert most_specific
run = refl

found : pointer "key-auth" kept ≡ some route_key
unfolding pointer lookup
found = refl

effective_plugins_most_specific_example :
    Any (λ q. (route_key ≡ q) × Applies "r1" "s1" "key-auth" q) listed
    × All (λ q. Applies "r1" "s1" "key-auth" q → rank q ≤ rank route_key) listed
effective_plugins_most_specific_example =
    effective_plugins_most_specific "r1" "s1" "key-auth" listed kept route_key run found

missing : pointer "acl" kept ≡ none
unfolding pointer lookup
missing = refl

effective_plugins_complete_example : All (λ q. ¬ Applies "r1" "s1" "acl" q) listed
effective_plugins_complete_example =
    effective_plugins_complete "r1" "s1" "acl" listed kept run missing

effective_plugins_total_example :
    (pmap : Dict (Option Plugin)) × (get_effective_plugins "r1" "s1" (ok listed) ≡ ret (ok pmap))
effective_plugins_total_example =
    effective_plugins_total "r1" "s1" listed
      ((λ e. cc, λ e. cc), ((λ e. cc, λ e. cc), ((λ e. cc, λ e. cc), tt)))
