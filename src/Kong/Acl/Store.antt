-- ===== src/Kong/Acl/Store.antt =====
-- What the Admin API documents of the plugins that it keeps, and of the reading of an ACL.
use agents_kong.Prelude.{
  String, ◌≡◌, ◌≢◌, Bool, false, Option, none, some, List, [], ◌∷◌, ◌++◌, map, ◌==◌, if◌then◌else◌,
}
use agents_kong.Prelude.Go.{ok}
use agents_kong.Kong.Klib.{AdminApi, Configuration, Plugin}
use agents_kong.Kong.Acl.{AclConfig, acl_configuration}

abbrev pub same_id : Option String → Option String → Bool
same_id none _ = false
same_id (some i) none = false
same_id (some i) (some j) = i == j

-- An update writes the configuration and the flag of the plugin that has the ID.
abbrev pub overwrite : Plugin → Plugin → Plugin
overwrite p q = if same_id p.id q.id then record q { config = p.config; enabled = p.enabled } else q

abbrev pub drop_id : Option String → List Plugin → List Plugin
drop_id id [] = []
drop_id id (q ∷ qs) = let rest = drop_id id qs in if same_id id q.id then rest else q ∷ rest

-- What is kept of a plugin that is created for a route.
pub record IsCreated (route_id : String) (p new : Plugin) : Type 0 where
  pub name : new.name ≡ p.name
  pub config : new.config ≡ p.config
  pub service : new.service ≡ p.service
  pub route : new.route ≡ some (record { id = some route_id })
  pub consumer : new.consumer ≡ p.consumer

-- The gateway keeps the plugins of each workspace. A listing shows them and changes nothing; a
-- creation that succeeds adds one somewhere in the list, an update that succeeds writes one that has an
-- ID, a deletion that succeeds drops the one with the ID.
pub record PluginStore (K : AdminApi) : Type 0 where
  pub plugins : K.State → String → List Plugin
  pub listed :
      (ws : String) (s : K.State) (ps : List Plugin)
      → (K.plugins_list_all ws s).0 ≡ ok ps
      → (ps ≡ plugins s ws) × ((K.plugins_list_all ws s).1 ≡ s)
  pub created :
      (ws route_id : String) (p q : Plugin) (s : K.State)
      → (K.plugins_create_for_route ws route_id p s).0 ≡ ok q
      → (new : Plugin) × (before after : List Plugin) × (plugins s ws ≡ before ++ after)
        × (plugins (K.plugins_create_for_route ws route_id p s).1 ws ≡ before ++ new ∷ after)
        × IsCreated route_id p new
  pub updated :
      (ws route_id : String) (p q : Plugin) (s : K.State)
      → (K.plugins_update_for_route ws route_id p s).0 ≡ ok q
      → (p.id ≢ none)
        × (plugins (K.plugins_update_for_route ws route_id p s).1 ws
            ≡ map (overwrite p) (plugins s ws))
  pub deleted :
      (ws route_id : String) (id : Option String) (s : K.State)
      → (K.plugins_delete_for_route ws route_id id s).0 ≡ ok tt
      → plugins (K.plugins_delete_for_route ws route_id id s).1 ws ≡ drop_id id (plugins s ws)

-- Reading back a configuration that was written gives it again.
abbrev pub ReadsBack : (Configuration → AclConfig) → Type 0
ReadsBack decode = (c : AclConfig) → decode (acl_configuration c) ≡ c
