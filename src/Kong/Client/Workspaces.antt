-- ===== src/Kong/Client/Workspaces.antt =====
-- The clients of the workspaces.
use agents_kong.Prelude.{
  String, ◌≡◌, ◌≢◌, ◌⊎◌, inl, inr, refl, ap, ◌∙◌, false, not, Option, none, some, List, [], ◌∷◌,
  ◌==◌, arith, eq_iff, Any, Bool-cases, if◌then◌else◌,
}
use agents_kong.Prelude.Dict.{Dict, lookup, insert, lookup-insert}
use agents_kong.Prelude.Go.{ok, err}
use agents_kong.Common.{
  background, with_value, text, context_workspace, default_workspace, get_string_value_from_ctx,
}
use agents_kong.Kong.Client.{
  Client, KongClient, create_workspace_client, clients_loop, or_default, create_workspace_clients,
  get_workspace_client,
}

module _ (new_client : String → Option String) (endpoint : String) where
  kept_name : (w : String) → (if not (w == "") then w else "") ≡ w
  kept_name w = ground (arith, eq_iff w "")

  accepted :
      (w : String)
      → new_client endpoint ≡ none
      → create_workspace_client new_client endpoint w ≡ ok (record { workspace = w })
  unfolding create_workspace_client
  accepted w e = ground (arith, kept_name w)

  refused :
      (w : String) (x : String)
      → new_client endpoint ≡ some x
      → create_workspace_client new_client endpoint w ≡ err x
  unfolding create_workspace_client
  refused w x e = ground arith

  loop-accepted :
      (w : String) (ws : List String) (before : Dict Client)
      → new_client endpoint ≡ none
      → clients_loop new_client endpoint (w ∷ ws) before
        ≡ clients_loop new_client endpoint ws (insert w (record { workspace = w }) before)
  unfolding clients_loop
  loop-accepted w ws before e = ground (arith, accepted w e)

  found_here :
      (w workspace : String) (o : Option Client)
      → w ≡ workspace
      → (if w == workspace then some (record { workspace = w }) else o)
        ≡ some (record { workspace = workspace })
  found_here w workspace o e = rw e (ground (arith, eq_iff workspace workspace))

  found_there :
      (w workspace : String) (before : Dict Client)
      → lookup workspace before ≡ some (record { workspace = workspace })
      → (if w == workspace then some (record { workspace = w }) else lookup workspace before)
        ≡ some (record { workspace = workspace })
  found_there w workspace before there = elim (Bool-cases (w == workspace)) [
    | inl same ↦ found_here w workspace _ ((eq_iff w workspace).0 same)
    | inr other ↦ rw other there
  ]

  -- Each workspace that the loop goes over, or that has its client before, has its client after.
  loop_lem :
      (workspaces : List String) (before : Dict Client) (workspace : String)
      → new_client endpoint ≡ none
      → Any (λ w. w ≡ workspace) workspaces
        ⊎ (lookup workspace before ≡ some (record { workspace = workspace }))
      → (after : Dict Client) × (clients_loop new_client endpoint workspaces before ≡ ok after)
        × (lookup workspace after ≡ some (record { workspace = workspace }))
  unfolding clients_loop
  loop_lem [] before workspace n (inl none_left) = absurd none_left
  loop_lem [] before workspace n (inr there) = (before, refl, there)
  loop_lem (w ∷ ws) before workspace n e = rw (loop-accepted w ws before n) (
      loop_lem ws _ workspace n (elim e [
        | inl (inl here) ↦ inr (lookup-insert w workspace _ before ∙ found_here w workspace _ here)
        | inl (inr later) ↦ inl later
        | inr there ↦
            inr (lookup-insert w workspace _ before ∙ found_there w workspace before there)
      ]))

  default_lem :
      (clients : Dict Client) (workspace : String) (c : Client)
      → lookup workspace clients ≡ some c
      → or_default new_client endpoint clients ≡ ok clients
  unfolding or_default lookup
  default_lem [] workspace c h = cc
  default_lem (p ∷ ps) workspace c h = refl

  unnamed : (w : String) → w ≢ "" → w == "" ≡ false
  unnamed w h = ground (arith, eq_iff w "")

  -- If klib.NewClient takes the endpoint, each workspace of the configuration with a name has a
  -- client of that workspace, which serves the contexts that hold its name.
  pub create_workspace_clients_serve :
      (k : KongClient) (workspaces : List String) (workspace : String)
      → new_client endpoint ≡ none
      → workspace ≢ ""
      → Any (λ w. w ≡ workspace) workspaces
      → (clients : Dict Client) × (create_workspace_clients new_client endpoint workspaces
          ≡ ok clients)
        × (get_workspace_client
              (record k { workspace_clients = clients })
              (with_value background context_workspace (text workspace))
            ≡ some (record { workspace = workspace }))
  unfolding create_workspace_clients get_workspace_client get_string_value_from_ctx
  create_workspace_clients_serve k workspaces workspace n named listed =
      let (clients, made, found) = loop_lem workspaces [] workspace n (inl listed) in
      (
        clients,
        ap (λ r. elim r [ err e ↦ err e | ok cs ↦ or_default new_client endpoint cs ]) made
            ∙ default_lem clients workspace _ found,
        ap (λ b. lookup (if b then default_workspace else workspace) clients)
              (unnamed workspace named)
            ∙ found,
      )
