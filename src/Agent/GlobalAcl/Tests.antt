-- ===== src/Agent/GlobalAcl/Tests.antt =====
-- A gateway with an ACL on a route and one that is global.
use agents_kong.Prelude.{◌≡◌, ◌⊎◌, ◌↔◌, true, false, none, some, List, [], ◌∷◌, Any}
use agents_kong.Prelude.Go.{ret}
use agents_kong.Kong.Klib.{Plugin}
use agents_kong.Agent.GlobalAcl.{has_global_acl_enabled_in_plugins}
use agents_kong.Agent.GlobalAcl.Found.{IsUnboundAcl, has_global_acl_iff}

abbrev global_acl : Plugin
global_acl = record {
  id = some "p1";
  name = some "acl";
  enabled = some true;
  config = [];
  service = none;
  route = none;
  consumer = none;
}

abbrev listed : List Plugin
listed = record global_acl { route = some (record { id = some "r1" }) } ∷ global_acl ∷ []

has_global_acl_iff_example :
    (has_global_acl_enabled_in_plugins listed false ≡ ret none)
    ↔ (false ≡ true) ⊎ Any IsUnboundAcl listed
has_global_acl_iff_example =
    has_global_acl_iff listed false ((λ e. cc, λ e. cc), ((λ e. cc, λ e. cc), tt))
