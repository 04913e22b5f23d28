-- ===== src/Kong/Selection/Mixing.antt =====
-- The loop never resets its three variables, so two plugins can make up one match between them.
use agents_kong.Prelude.{String, ◌≡◌, ◌≢◌, false, none, some, List, ◌∷◌, arith, eq_iff}
use agents_kong.Prelude.Go.{ok, ret}
use agents_kong.Kong.Klib.{Plugin}
use agents_kong.Kong.Selection.{scope_matches, get_specific_plugin}

-- A plugin of the name, bound to a route and a consumer and to no service.
pub record IsBound (plugin_name route_id consumer_id : String) (p : Plugin) : Type 0 where
  pub named : p.name ≡ some plugin_name
  pub route : p.route ≡ some (record { id = some route_id })
  pub consumer : p.consumer ≡ some (record { id = some consumer_id })
  pub service : p.service ≡ none

-- Where the first plugin is bound to the consumer on another route, and the second to the route for
-- another consumer, the search for the consumer on the route returns the second plugin, whose
-- consumer is not the one that was asked for, whatever follows in the list.
pub get_specific_plugin_mixes :
    (plugin_name route_id consumer_id other_route other_consumer : String) (a b : Plugin)
    (ps : List Plugin)
    → route_id ≢ ""
    → consumer_id ≢ ""
    → other_route ≢ route_id
    → other_consumer ≢ consumer_id
    → IsBound plugin_name other_route consumer_id a
    → IsBound plugin_name route_id other_consumer b
    → (get_specific_plugin (a ∷ b ∷ ps) "" route_id consumer_id plugin_name ≡ ret (ok b))
      × (scope_matches consumer_id b.consumer ≡ ret false)
unfolding get_specific_plugin scope_matches
get_specific_plugin_mixes n r c r' c' a b ps hr hc hr' hc' ha hb = (
  rw (ha.named, ha.route, ha.consumer, ha.service, hb.named, hb.route, hb.consumer, hb.service)
      (ground (
        arith,
        eq_iff n n,
        eq_iff r "",
        eq_iff c "",
        eq_iff r' r,
        eq_iff c' c,
        eq_iff r r,
        eq_iff c c,
      )),
  rw hb.consumer (ground (arith, eq_iff c "", eq_iff c' c)),
)
