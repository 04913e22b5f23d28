-- ===== src/Agent/Publish/Change.antt =====
-- The cache detects that an API has not changed since it was processed.
use agents_kong.Prelude.{String, ◌≡◌, refl, ap, ◌∙◌, true, Option, none, some, inl, inr, Bool-cases}
use agents_kong.Prelude.Go.{Result, ok, err, ret, deref}
use agents_kong.Prelude.Exec.{continue_keeps}
use agents_kong.Common.{Context}
use agents_kong.Kong.Klib.{Route, Service}
use agents_kong.Agent.Sdk.{KongApi, Platform}
use agents_kong.Agent.Publish.{
  CacheApi, make_checksum, item_found, is_published, process_changed, process_api,
}

-- An item is read under the key, and reading it leaves the cache as it is.
abbrev pub Stored : (cache : CacheApi) → String → cache.Content → Type 0
Stored cache key c = (api : KongApi) × (cache.get key c ≡ (ok (some api), c))

-- What is read in the first is read in the second.
abbrev pub Grows : (cache : CacheApi) → cache.Content → cache.Content → Type 0
Grows cache c d = (key : String) → Stored cache key c → Stored cache key d

-- A cache in memory: it takes every item, keeps it, and reading does not change it.
pub record LawfulCache (cache : CacheApi) : Type 0 where
  pub get_keeps : (key : String) (c : cache.Content) → (cache.get key c).1 ≡ c
  pub set_stores :
      (key : String) (api : KongApi) (c : cache.Content) → Stored cache key (cache.set key api c).1
  pub set_grows :
      (key : String) (api : KongApi) (c : cache.Content) → Grows cache c (cache.set key api c).1

module _ (platform : Platform) (cache : CacheApi) where
  -- An item that is found is one that is stored.
  found-Stored :
      (key : String) (c d : cache.Content) (item : Result (Option KongApi))
      → d ≡ c
      → cache.get key c ≡ (item, d)
      → item_found platform cache item ≡ true
      → Stored cache key c
  found-Stored key c d (ok (some api)) e g found = (api, g ∙ ap (λ x. (ok (some api), x)) e)
  found-Stored key c d (ok none) e g found = cc
  found-Stored key c d (err m) e g found = cc

  module _ (ctx : Context) (route : Route) (service : Service) (api : KongApi) where
    pub process_api-Stored :
        (c : cache.Content)
        → Stored cache (make_checksum platform api) c
        → process_api platform cache ctx route service api c ≡ (ret (ok none), c)
    unfolding process_api is_published
    process_api-Stored c (item, e) = rw e (refl)

    changed_state :
        (key : String) (c : cache.Content)
        → (process_changed platform cache ctx route service api key c).1 ≡ (cache.set key api c).1
    unfolding process_changed
    changed_state key c =
        continue_keeps (deref service.id) _ _
          (λ service_id. continue_keeps (deref route.id) _ _ (λ route_id. refl))

    module _ (laws : LawfulCache cache) where
      -- Whatever processKongAPI returns, the API is in the cache afterwards, and so is what was there.
      process_api_after :
          (c : cache.Content)
          → Stored cache
              (make_checksum platform api)
              (process_api platform cache ctx route service api c).1
            × Grows cache c (process_api platform cache ctx route service api c).1
      unfolding process_api is_published
      process_api_after c =
          let key = make_checksum platform api in
          let kept = laws.get_keeps key c in
          elim (Bool-cases (item_found platform cache (cache.get key c).0)) [
            | inl found ↦ rw (found, kept) (found-Stored key c _ _ kept refl found, λ k h. h)
            | inr missing ↦
                rw (missing, kept, changed_state key c)
                  (laws.set_stores key api c, laws.set_grows key api c)
          ]

      pub process_api-Grows :
          (c : cache.Content) → Grows cache c (process_api platform cache ctx route service api c).1
      process_api-Grows c = (process_api_after c).1

      -- Once processKongAPI has run for an API, a further run in a cache that holds what the cache
      -- held after the first, or more, gives nil and leaves the cache alone: also where the first
      -- gave an error because the service body could not be built. The cache keeps what it takes.
      pub process_api_repeat :
          (c d : cache.Content)
          → Grows cache (process_api platform cache ctx route service api c).1 d
          → process_api platform cache ctx route service api d ≡ (ret (ok none), d)
      process_api_repeat c d grown =
          process_api-Stored d (grown (make_checksum platform api) (process_api_after c).0)
