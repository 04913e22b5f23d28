-- ===== src/Traceability/Beater/Tests.antt =====
-- A server that takes two requests and is shut down in good order.
use agents_kong.Prelude.{
  ℕ, ◌+◌, ◌≤◌, ◌<◌, String, ◌≡◌, ◌↔◌, ◌⊎◌, refl, true, false, some, List, [], ◌∷◌, nat_eq, arith,
  ◌==◌, if◌then◌else◌,
}
use agents_kong.Prelude.Go.{ok, err}
use agents_kong.Traceability.Samples.{sdk}
use agents_kong.Traceability.Beater.{
  Host, flushed, finished, listening, closed, added, exited, crashed, Server, request, process,
  shut_down, run, step, process_data, is_alive, initial, Reach, here, next, health_loop,
}
use agents_kong.Traceability.Handler.{handle}
use agents_kong.Prelude.Counts.{count}
use agents_kong.Traceability.Beater.Ends.{Reach-conserved, Reach-exited, shut_down_crashes_iff}
use agents_kong.Traceability.Beater.Drain.{CanExit, Reach-CanExit}
use agents_kong.Traceability.Beater.Health.{health_loop_returns}

abbrev host : Host sdk
host = record {
  decode = λ body. if body == "bad" then err "no JSON" else ok [];
  publish_all = λ events s. "published" ∷ s;
  shutdown_publish = λ s. "metrics" ∷ s;
  pod_name = "pod";
  is_failed = λ s. false;
  is_unhealthy = λ s. false;
  get_resources = λ s. (ok ("one" ∷ "two" ∷ []), s);
  delete_resource_instance = λ s. "deleted" ∷ s;
}

abbrev start : Server (List String)
start = initial sdk host []

-- one request, Run up to its wait, and a second request
abbrev busy : Server (List String)
busy = record start {
  jobs = "b" ∷ "a" ∷ [];
  accepted = "b" ∷ "a" ∷ [];
  main = added;
  shutdown_done = 1;
}

Reach-busy : Reach sdk host start busy
unfolding step
Reach-busy =
    next
      (next (next (next (next here (request "POST" (ok "a")) refl) run refl) run refl)
        (request "GET" (ok "c")) refl)
      (request "POST" (ok "b")) refl

Reach-CanExit_example : CanExit sdk host busy
Reach-CanExit_example = Reach-CanExit sdk host Reach-busy refl

-- both goroutines end, and then the shutdown handler and Run
abbrev ended : Server (List String)
ended = record busy {
  jobs = [];
  processed = "b" ∷ "a" ∷ [];
  shutdown = finished ("b" ∷ "a" ∷ []);
  shutdown_done = 0;
  main = exited;
  world = "deleted" ∷ "metrics" ∷ "published" ∷ "published" ∷ [];
}

Reach-ended : Reach sdk host start ended
unfolding step process_data handle
Reach-ended =
    next
      (next
        (next (next (next (next Reach-busy (process 1) refl) shut_down refl) (process 0) refl)
          shut_down refl)
        shut_down refl)
      run refl

Reach-exited_example :
    (seen : List String) × (ended.shutdown ≡ finished seen)
    × ((d : String) → count d seen ≤ count d ended.processed)
Reach-exited_example = Reach-exited sdk host Reach-ended refl

-- The handler goes past its wait, a request comes, and Run returns before its goroutine has ended.
abbrev cut_off : Server (List String)
cut_off = record start {
  accepted = "b" ∷ [];
  lost = "b" ∷ [];
  shutdown = finished [];
  main = exited;
  world = "deleted" ∷ "metrics" ∷ [];
}

Reach-cut_off : Reach sdk host start cut_off
unfolding step
Reach-cut_off =
    next
      (next
        (next (next (next (next (next here run refl) run refl) shut_down refl) shut_down refl)
          (request "POST" (ok "b")) refl)
        shut_down refl)
      run refl

Reach-conserved_example :
    (count "b" cut_off.accepted
      ≡ count "b" cut_off.jobs + (count "b" cut_off.processed + count "b" cut_off.lost))
    × ((cut_off.lost ≡ [])
        ⊎ ((is_alive cut_off.main ≡ false)
            × (seen : List String) × (cut_off.shutdown ≡ finished seen)
            × (count "b" seen + count "b" cut_off.lost ≤ count "b" cut_off.accepted)))
Reach-conserved_example = Reach-conserved sdk host Reach-cut_off "b"

-- The shutdown handler is called while the server still listens, and nothing runs.
abbrev early : Server (List String)
early = record start { shutdown = flushed []; world = "deleted" ∷ "metrics" ∷ [] }

Reach-early : Reach sdk host start early
unfolding step
Reach-early = next (next here shut_down refl) shut_down refl

shut_down_crashes_iff_example :
    ((t : Server (List String)) × (step sdk host shut_down early ≡ some t) × (t.main ≡ crashed))
    ↔ ((early.main ≡ listening) ⊎ (early.main ≡ closed))
shut_down_crashes_iff_example = shut_down_crashes_iff sdk host [] Reach-early refl refl

health_loop_returns_example :
    (n : ℕ) × (health_loop (λ i. nat_eq i 2) 3 0 ≡ some n)
    × (nat_eq n 2 ≡ true)
    × (n ≤ 2)
    × ((i : ℕ) → 0 ≤ i → i < n → nat_eq i 2 ≡ false)
health_loop_returns_example =
    health_loop_returns (λ i. nat_eq i 2) 3 0 2 (omega arith) (omega arith) refl
