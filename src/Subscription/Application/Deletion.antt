-- ===== src/Subscription/Application/Deletion.antt =====
-- Deleting an application deletes its consumer in every workspace.
use agents_kong.Prelude.{
  String, ◌≡◌, ◌≢◌, ◌⊎◌, inl, inr, refl, sym, ap, subst, ◌∙◌, true, false, not, Option, none, some,
  List, [], ◌∷◌, ◌++◌, ◌==◌, arith, eq_iff, Bool-cases, Any, is_empty, if◌then◌else◌,
}
use agents_kong.Prelude.Dict.{Dict, lookup, insert, lookup-insert}
use agents_kong.Prelude.Go.{Ret, ret, panic}
use agents_kong.Prelude.Exec.{continue}
use agents_kong.Common.{
  Context, text, background, with_value, context_workspace, attr_app_id, wks_prefix_name,
}
use agents_kong.Kong.Klib.{AdminApi}
use agents_kong.Kong.Client.{KongClient}
use agents_kong.Kong.Consumers.{delete_consumer}
use agents_kong.Kong.Consumers.Behaviour.{
  ConsumerStore, IsGone, LookupFails, delete_consumer-IsGone, delete_consumer_keeps,
}
use agents_kong.Subscription.Sdk.{RequestStatus, failed, succeeded}
use agents_kong.Subscription.Application.{
  AppRequest, consumers_loop, new_application_provisioner, delete_loop, deprovision,
}

abbrev pub in_workspace : String → Context
in_workspace workspace = with_value background context_workspace (text workspace)

-- the consumer that the application has in a workspace, "" without one
abbrev pub consumer_of : AppRequest → String → String
consumer_of request workspace =
    request.application_details_value (wks_prefix_name workspace attr_app_id)

kept :
    (request : AppRequest) (ids : Dict String) (w workspace : String)
    → w ≡ workspace
    → consumer_of request workspace ≢ ""
    → lookup workspace
        (if not (consumer_of request w == "") then insert w (consumer_of request w) ids else ids)
      ≡ some (consumer_of request workspace)
kept request ids w workspace same named = rw same (
    ground (
      arith,
      eq_iff (consumer_of request workspace) "",
      eq_iff workspace workspace,
      lookup-insert workspace workspace (consumer_of request workspace) ids,
    ))

passed :
    (request : AppRequest) (ids : Dict String) (w workspace : String)
    → w == workspace ≡ false
    → lookup workspace
        (if not (consumer_of request w == "") then insert w (consumer_of request w) ids else ids)
      ≡ lookup workspace ids
passed request ids w workspace other =
    ground (arith, eq_iff w workspace, lookup-insert w workspace (consumer_of request w) ids)

loop_keeps :
    (request : AppRequest) (workspaces : List String) (ids : Dict String) (workspace : String)
    → consumer_of request workspace ≢ ""
    → (lookup workspace ids ≡ some (consumer_of request workspace))
      ⊎ Any (λ w. w ≡ workspace) workspaces
    → lookup workspace (consumers_loop request workspaces ids)
      ≡ some (consumer_of request workspace)
unfolding consumers_loop
loop_keeps request [] ids workspace named (inl there) = there
loop_keeps request [] ids workspace named (inr none_left) = absurd none_left
loop_keeps request (w ∷ ws) ids workspace named h =
    loop_keeps request ws _ workspace named (elim (Bool-cases (w == workspace)) [
      | inl same ↦ inl (kept request ids w workspace ((eq_iff w workspace).0 same) named)
      | inr other ↦ elim h [
        | inl there ↦ inl (passed request ids w workspace other ∙ there)
        | inr (inl e) ↦ inl (kept request ids w workspace e named)
        | inr (inr later) ↦ inr later
      ]
    ])

module _ (K : AdminApi) (k : KongClient) (P : ConsumerStore K) where
  abbrev Gone : String → String → K.State → Type 0
  Gone workspace id = IsGone K k P (in_workspace workspace) id

  abbrev deleting : Dict String → K.State → Ret RequestStatus × K.State
  deleting = delete_loop (delete_consumer K k)

  -- what the loop does with the answer of the first deletion
  abbrev after : Dict String → Ret (Option String) × K.State → Ret RequestStatus × K.State
  after rest (panic, s) = (panic, s)
  after rest (ret (some _), s) = (ret (failed "could not remove consumer in kong"), s)
  after rest (ret none, s) = deleting rest s

  deleting-cons :
      (w id : String) (rest : Dict String) (s : K.State)
      → deleting ((w, id) ∷ rest) s ≡ after rest (delete_consumer K k (in_workspace w) id s)
  unfolding delete_loop
  deleting-cons w id rest s = go _
    where
      go :
          (out : Ret (Option String) × K.State)
          → continue out (λ deleted. elim deleted [
            | some _ ↦ λ s. (ret (failed "could not remove consumer in kong"), s)
            | none ↦ deleting rest
          ])
            ≡ after rest out
      go (panic, s) = refl
      go (ret (some _), s) = refl
      go (ret none, s) = refl

  after_keeps :
      (rest : Dict String) (workspace id : String)
      → ((s : K.State) → Gone workspace id s → Gone workspace id (deleting rest s).1)
      → (out : Ret (Option String) × K.State) → Gone workspace id out.1
      → Gone workspace id (after rest out).1
  after_keeps rest workspace id later (panic, s) h = h
  after_keeps rest workspace id later (ret (some _), s) h = h
  after_keeps rest workspace id later (ret none, s) h = later s h

  deleting_keeps :
      (ids : Dict String) (workspace id : String) (s : K.State)
      → Gone workspace id s
      → Gone workspace id (deleting ids s).1
  unfolding delete_loop
  deleting_keeps [] workspace id s h = h
  deleting_keeps ((w, i) ∷ rest) workspace id s h = rw (deleting-cons w i rest s) (
      after_keeps rest workspace id (deleting_keeps rest workspace id) _
        (delete_consumer_keeps K k P (in_workspace w) i (in_workspace workspace) id s h))

  -- On the way, in the state in which the loop came to the consumer, its look-up failed for another
  -- reason than its absence.
  abbrev pub IsPassedOver : Dict String → K.State → String → String → Type 0
  IsPassedOver ids s workspace id =
      (before rest : Dict String) × (t : K.State) × (ids ≡ before ++ ((workspace, id) ∷ rest))
      × (delete_loop (delete_consumer K k) before s ≡ (ret succeeded, t))
      × LookupFails K k P (in_workspace workspace) id t

  after_success :
      (rest : Dict String) (out : Ret (Option String) × K.State)
      → (after rest out).0 ≡ ret succeeded
      → (out.0 ≡ ret none) × ((after rest out) ≡ deleting rest out.1)
  after_success rest (panic, s) h = cc
  after_success rest (ret (some _), s) h = cc
  after_success rest (ret none, s) h = (refl, refl)

  later-IsPassedOver :
      (w i : String) (rest : Dict String) (s u : K.State) (workspace id : String)
      → delete_consumer K k (in_workspace w) i s ≡ (ret none, u)
      → IsPassedOver rest u workspace id
      → IsPassedOver ((w, i) ∷ rest) s workspace id
  later-IsPassedOver w i rest s u workspace id done (before, after_it, t, split, ran, fails) = (
    (w, i) ∷ before,
    after_it,
    t,
    ap (λ (d : Dict String). (w, i) ∷ d) split,
    deleting-cons w i before s ∙ ap (after before) done ∙ ran,
    fails,
  )

  deleting-Gone :
      (ids : Dict String) (s : K.State) (workspace id : String)
      → (deleting ids s).0 ≡ ret succeeded
      → lookup workspace ids ≡ some id
      → Gone workspace id (deleting ids s).1 ⊎ IsPassedOver ids s workspace id
  unfolding lookup delete_loop
  deleting-Gone [] s workspace id h e = cc
  deleting-Gone ((w, i) ∷ rest) s workspace id h e =
      let (done, onward) = after_success rest out (rw (deleting-cons w i rest s) at h) in
      let later : (deleting rest out.1).0 ≡ ret succeeded =
        sym (ap (λ r. r.0) onward) ∙ (rw (deleting-cons w i rest s) at h) in
      let onward_state : (deleting ((w, i) ∷ rest) s).1 ≡ (deleting rest out.1).1 =
        ap (λ r. r.1) (deleting-cons w i rest s ∙ onward) in
      elim (Bool-cases (w == workspace)) [
        | inl same ↦ elim (first ((eq_iff w workspace).0 same) (head same) done) [
          | inl gone ↦ inl (rw onward_state (deleting_keeps rest workspace id out.1 gone))
          | inr fails ↦ inr (
            [],
            rest,
            s,
            ap (λ (p : String × String). p ∷ rest)
                (ap (λ x. (x, i)) ((eq_iff w workspace).0 same)
                  ∙ ap (λ x. (workspace, x)) (head same)),
            refl,
            fails,
          )
        ]
        | inr other ↦
            elim (deleting-Gone rest out.1 workspace id later
              (ground (arith, eq_iff w workspace))) [
                | inl gone ↦ inl (rw onward_state (gone))
                | inr passed_over ↦ inr (
                    later-IsPassedOver w i rest s out.1 workspace id (ap (λ r. (r, out.1)) done)
                      passed_over)
              ]
      ]
    where
      out : Ret (Option String) × K.State
      out = delete_consumer K k (in_workspace w) i s

      head : w == workspace ≡ true → i ≡ id
      head same = ground (arith, eq_iff w workspace)

      first :
          w ≡ workspace
          → i ≡ id
          → out.0 ≡ ret none
          → Gone workspace id out.1 ⊎ LookupFails K k P (in_workspace workspace) id s
      first same named done =
          subst (λ x. Gone x id out.1 ⊎ LookupFails K k P (in_workspace x) id s) same
            (subst (λ x. Gone w x out.1 ⊎ LookupFails K k P (in_workspace w) x s) named
              (delete_consumer-IsGone K k P (in_workspace w) i s done))

  module _ (visit : Dict String → Dict String)
      (is_order : (ids : Dict String) (workspace : String)
        → lookup workspace (visit ids) ≡ lookup workspace ids) where
    provisioner-Gone :
        (ids : Dict String) (s : K.State) (workspace id : String)
        → ((if is_empty ids
              then (λ s. (ret (failed "workspace not found"), s))
              else deleting (visit ids))
            s).0
          ≡ ret succeeded
        → lookup workspace ids ≡ some id
        → Gone workspace id
            ((if is_empty ids
                then (λ s. (ret (failed "workspace not found"), s))
                else deleting (visit ids))
              s).1
          ⊎ IsPassedOver (visit ids) s workspace id
    unfolding lookup
    provisioner-Gone [] s workspace id h e = cc
    provisioner-Gone (p ∷ ids) s workspace id h e =
        deleting-Gone (visit (p ∷ ids)) s workspace id h (is_order (p ∷ ids) workspace ∙ e)

    -- Where Deprovision of an application succeeds, each workspace of the agent in which the
    -- application has a consumer has a client, and the consumer is absent from the client's
    -- workspace, or its look-up failed in the state in which the loop came to it, and not because
    -- there was no such consumer. This holds in whatever order the map of the consumers is visited.
    -- The gateway keeps its consumers as documented.
    pub deprovision-IsGone :
        (request : AppRequest) (workspaces : List String) (s : K.State) (workspace : String)
        → Any (λ w. w ≡ workspace) workspaces
        → consumer_of request workspace ≢ ""
        → (deprovision
            (delete_consumer K k)
            visit
            (new_application_provisioner request workspaces)
            s).0
          ≡ ret succeeded
        → IsGone K k P
            (in_workspace workspace)
            (consumer_of request workspace)
            (deprovision
              (delete_consumer K k)
              visit
              (new_application_provisioner request workspaces)
              s).1
          ⊎ IsPassedOver
              (visit (new_application_provisioner request workspaces).consumer_ids)
              s
              workspace
              (consumer_of request workspace)
    unfolding deprovision new_application_provisioner
    deprovision-IsGone request workspaces s workspace listed named h =
        provisioner-Gone (consumers_loop request workspaces []) s workspace _ h
          (loop_keeps request workspaces [] workspace named (inr listed))
