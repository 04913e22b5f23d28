-- ===== src/Kong/Consumers/Behaviour.antt =====
-- What DeleteConsumer does to the gateway.
use agents_kong.Prelude.{
  ◌≢◌, String, ◌≡◌, ◌⊎◌, inl, inr, refl, Bool, true, false, Bool-cases, Option, none, some,
}
use agents_kong.Prelude.Go.{Result, ok, err, Ret, ret, panic, ret-injective}
use agents_kong.Common.{Context}
use agents_kong.Kong.Klib.{AdminApi, Consumer}
use agents_kong.Kong.Client.{KongClient, Client, get_workspace_client}
use agents_kong.Kong.Consumers.{to_error, delete_found, delete_consumer}

-- How the Admin API keeps the consumers of a workspace: a consumer that it says it does not find, or
-- has deleted, is absent, and neither call brings one back. A look-up may fail for another reason,
-- which says nothing of the consumer.
pub record ConsumerStore (K : AdminApi) : Type 1 where
  pub IsAbsent : String → String → K.State → Type 0
  -- the errors that stand for the answer 404
  pub is_not_found : String → Bool
  pub missing :
      (ws id e : String) (s : K.State)
      → (K.consumers_get ws id s).0 ≡ err e
      → is_not_found e ≡ true
      → IsAbsent ws id (K.consumers_get ws id s).1
  pub deleted :
      (ws id : String) (s : K.State)
      → (K.consumers_delete ws id s).0 ≡ ok tt
      → IsAbsent ws id (K.consumers_delete ws id s).1
  pub get_keeps :
      (ws id ws' id' : String) (s : K.State)
      → IsAbsent ws id s
      → IsAbsent ws id (K.consumers_get ws' id' s).1
  pub delete_keeps :
      (ws id ws' id' : String) (s : K.State)
      → IsAbsent ws id s
      → IsAbsent ws id (K.consumers_delete ws' id' s).1

module _ (K : AdminApi) (k : KongClient) (P : ConsumerStore K) where
  -- The consumer is absent from the workspace of the client that serves the context.
  abbrev pub IsGone : Context → String → K.State → Type 0
  IsGone ctx id s =
      (client : Client) × (get_workspace_client k ctx ≡ some client)
      × P.IsAbsent client.workspace id s

  -- The look-up of the consumer fails, and not with the answer that it is not found.
  abbrev pub LookupFails : Context → String → K.State → Type 0
  LookupFails ctx id s =
      (client : Client) × (get_workspace_client k ctx ≡ some client)
      × (e : String) × ((K.consumers_get client.workspace id s).0 ≡ err e)
      × (P.is_not_found e ≡ false)

  abbrev looked_up : Client → String → K.State → Result Consumer × K.State
  looked_up c id s = K.consumers_get c.workspace id s

  abbrev dropped : Client → String → K.State → Result (Unit {0}) × K.State
  dropped c id s = K.consumers_delete c.workspace id s

  dropped-IsAbsent :
      (c : Client) (id : String) (s : K.State) (r : Result (Unit {0}))
      → (dropped c id s).0 ≡ r
      → to_error r ≡ none
      → P.IsAbsent c.workspace id (dropped c id s).1
  dropped-IsAbsent c id s (ok tt) e h = P.deleted c.workspace id s e
  dropped-IsAbsent c id s (err x) e h = cc

  found-IsAbsent :
      (c : Client) (id : String) (s : K.State) (r : Result Consumer)
      → (looked_up c id s).0 ≡ r
      → (delete_found K k c id r (looked_up c id s).1).0 ≡ ret none
      → P.IsAbsent c.workspace id (delete_found K k c id r (looked_up c id s).1).1
        ⊎ ((e : String) × ((looked_up c id s).0 ≡ err e) × (P.is_not_found e ≡ false))
  unfolding delete_found
  found-IsAbsent c id s (err x) e h = elim (Bool-cases (P.is_not_found x)) [
    | inl missed ↦ inl (P.missing c.workspace id x s e missed)
    | inr other ↦ inr (x, e, other)
  ]
  found-IsAbsent c id s (ok x) e h =
      inl (dropped-IsAbsent c id (looked_up c id s).1 _ refl (ret-injective h))

  stuck : ◌≢◌ {A = Ret (Option String)} panic (ret none)
  stuck e = cc

  client-IsAbsent :
      (ctx : Context) (id : String) (s : K.State) (o : Option Client)
      → get_workspace_client k ctx ≡ o
      → (delete_consumer K k ctx id s).0 ≡ ret none
      → IsGone ctx id (delete_consumer K k ctx id s).1 ⊎ LookupFails ctx id s
  unfolding delete_consumer
  client-IsAbsent ctx id s none e h = absurd (stuck (rw e at h))
  client-IsAbsent ctx id s (some c) e h = elim (found-IsAbsent c id s _ refl (rw e at h)) [
    | inl absent ↦ inl (c, e, rw e (absent))
    | inr (m, failed, other) ↦ inr (c, e, m, failed, other)
  ]

  -- Where DeleteConsumer returns no error, the consumer is absent from the workspace, or its look-up
  -- failed for another reason than its absence.
  pub delete_consumer-IsGone :
      (ctx : Context) (id : String) (s : K.State)
      → (delete_consumer K k ctx id s).0 ≡ ret none
      → IsGone ctx id (delete_consumer K k ctx id s).1 ⊎ LookupFails ctx id s
  delete_consumer-IsGone ctx id s h = client-IsAbsent ctx id s _ refl h

  found_keeps :
      (c : Client) (id ws gone : String) (s : K.State) (r : Result Consumer)
      → P.IsAbsent ws gone s
      → P.IsAbsent ws gone (delete_found K k c id r s).1
  unfolding delete_found
  found_keeps c id ws gone s (err x) h = h
  found_keeps c id ws gone s (ok x) h = P.delete_keeps ws gone c.workspace id s h

  client_keeps :
      (ctx : Context) (id ws gone : String) (s : K.State) (o : Option Client)
      → get_workspace_client k ctx ≡ o
      → P.IsAbsent ws gone s
      → P.IsAbsent ws gone (delete_consumer K k ctx id s).1
  unfolding delete_consumer
  client_keeps ctx id ws gone s none e h = rw e h
  client_keeps ctx id ws gone s (some c) e h = rw e (
      found_keeps c id ws gone (looked_up c id s).1 (looked_up c id s).0
        (P.get_keeps ws gone c.workspace id s h))

  pub delete_consumer_keeps :
      (ctx : Context) (id : String) (ctx' : Context) (gone : String) (s : K.State)
      → IsGone ctx' gone s
      → IsGone ctx' gone (delete_consumer K k ctx id s).1
  delete_consumer_keeps ctx id ctx' gone s (c, e, h) =
      (c, e, client_keeps ctx id c.workspace gone s _ refl h)
