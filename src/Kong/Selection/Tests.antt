-- ===== src/Kong/Selection/Tests.antt =====
-- Searches in concrete lists.
use agents_kong.Prelude.{
  String, ◌≡◌, refl, true, false, none, some, List, [], ◌∷◌, arith, eq_iff, All, Any, Option,
}
use agents_kong.Prelude.Go.{ok, err, ret}
use agents_kong.Kong.Klib.{Ref, Plugin}
use agents_kong.Kong.Selection.{scope_matches, get_specific_plugin}
use agents_kong.Kong.Selection.Search.{FullMatch, get_specific_plugin_complete}
use agents_kong.Kong.Selection.Unmixed.{get_specific_plugin_sound}
use agents_kong.Kong.Selection.Mixing.{get_specific_plugin_mixes}

abbrev ref : String → Option Ref
ref id = some (record { id = some id })

abbrev plugin : String → Option Ref → Option Ref → Plugin
plugin name route consumer = record {
  id = none;
  name = some name;
  enabled = some true;
  config = [];
  service = none;
  route = route;
  consumer = consumer;
}

abbrev acl_one : Plugin
acl_one = plugin "acl" (ref "r1") none

abbrev acl_two : Plugin
acl_two = plugin "acl" (ref "r2") none

abbrev acls : List Plugin
acls = acl_one ∷ plugin "cors" (ref "r2") none ∷ acl_two ∷ []

found : get_specific_plugin acls "" "r2" "" "acl" ≡ ret (ok acl_two)
unfolding get_specific_plugin
found = refl

get_specific_plugin_sound_example : Any (λ q. (q ≡ acl_two) × FullMatch "" "r2" "" "acl" q) acls
unfolding scope_matches
get_specific_plugin_sound_example =
    get_specific_plugin_sound "" "r2" "" "acl" acls acl_two
      ((λ e. (refl, refl)), ((λ e. (refl, refl)), ((λ e. (refl, refl)), tt))) found

absent : get_specific_plugin acls "" "r3" "" "acl" ≡ ret (err "no acl plugin found")
unfolding get_specific_plugin
absent = refl

get_specific_plugin_complete_example : All (λ q. ¬ FullMatch "" "r3" "" "acl" q) acls
get_specific_plugin_complete_example =
    get_specific_plugin_complete "" "r3" "" "acl" acls "no acl plugin found" absent

abbrev limit_a : Plugin
limit_a = plugin "rate-limiting" (ref "r1") (ref "c2")

abbrev limit_b : Plugin
limit_b = plugin "rate-limiting" (ref "r2") (ref "c1")

get_specific_plugin_mixes_example :
    (get_specific_plugin (limit_a ∷ limit_b ∷ []) "" "r2" "c2" "rate-limiting" ≡ ret (ok limit_b))
    × (scope_matches "c2" limit_b.consumer ≡ ret false)
get_specific_plugin_mixes_example =
    get_specific_plugin_mixes "rate-limiting" "r2" "c2" "r1" "c1" limit_a limit_b []
      (λ e. ground (arith, eq_iff "r2" "")) (λ e. ground (arith, eq_iff "c2" ""))
      (λ e. ground (arith, eq_iff "r1" "r2")) (λ e. ground (arith, eq_iff "c1" "c2"))
      (record { named = refl; route = refl; consumer = refl; service = refl })
      (record { named = refl; route = refl; consumer = refl; service = refl })
