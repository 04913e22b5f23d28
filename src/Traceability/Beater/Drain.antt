-- ===== src/Traceability/Beater/Drain.antt =====
-- The server can always end once Run waits for the shutdown handler.
use agents_kong.Prelude.{
  is_empty, if◌then◌else◌, none, zero, ◌≡◌, refl, ap, ◌∙◌, String, inl, inr, some, List, [], ◌∷◌,
}
use agents_kong.Traceability.Sdk.{Sdk}
use agents_kong.Traceability.Beater.{
  Host, Shutdown, not_called, waiting, flushed, finished, added, exited, Server, Move, process,
  shut_down, run, pull, run_job, shutdown_over, shutdown_handler, run_over, run_main, moved,
  clean_resource, process_data, end_process, step, initial, Reach, here, next,
}
use agents_kong.Traceability.Beater.Invariant.{IsInStep, Reach-Inv}
use agents_kong.Traceability.Beater.Ends.{over-step, shut_down-step}

module _ (sdk : Sdk) (host : Host sdk) where
  Reach-trans :
      {s t u : Server sdk.State} → Reach sdk host s t → Reach sdk host t u → Reach sdk host s u
  Reach-trans r here = r
  Reach-trans r (next q m e) = next (Reach-trans r q) m e

  -- The server comes to a state in which Run has returned.
  abbrev pub CanExit : Server sdk.State → Type 0
  CanExit s = (t : Server sdk.State) × Reach sdk host s t × (t.main ≡ exited)

  by_move :
      {s : Server sdk.State} (m : Move) (t : Server sdk.State)
      → step sdk host m s ≡ some t
      → CanExit t
      → CanExit s
  by_move m t e (u, r, ended) = (u, Reach-trans (next here m e) r, ended)

  -- Run waits, and the handler has ended
  from_done : (s : Server sdk.State) → s.main ≡ added → s.shutdown_done ≡ 0 → CanExit s
  unfolding step moved run_main run_over
  from_done s e z = by_move run (end_process exited s) (rw (e, z)) (_, here, refl)

  from_flushed :
      (seen : List String) (s : Server sdk.State)
      → s.main ≡ added
      → s.shutdown ≡ flushed seen
      → s.shutdown_done ≡ 1
      → CanExit s
  unfolding shutdown_over
  from_flushed seen s e f o =
      by_move shut_down (shutdown_over sdk host seen s.shutdown_done s)
        (over-step sdk host seen s (rw e) f)
        (rw o (from_done (record s { shutdown = finished seen; shutdown_done = 0 }) e refl))

  from_waiting :
      (jobs : List String) (s : Server sdk.State)
      → s.jobs ≡ jobs
      → s.main ≡ added
      → s.shutdown ≡ waiting
      → s.shutdown_done ≡ 1
      → CanExit s
  unfolding step moved shutdown_handler pull run_job
  from_waiting [] s j e w o =
      let past_wait : Server sdk.State = record s {
        shutdown = flushed s.accepted;
        world = clean_resource sdk host (host.shutdown_publish s.world);
      } in
      by_move shut_down past_wait
        (shut_down-step sdk host waiting s (rw e) w
          ∙ ap (λ (js : List String). if is_empty js then some past_wait else none) j)
        (from_flushed s.accepted past_wait e refl o)
  from_waiting (x ∷ xs) s j e w o =
      let one_less : Server sdk.State = record s {
        jobs = xs;
        processed = x ∷ s.processed;
        world = (process_data sdk host x s.world).1;
      } in
      let live : step sdk host (process zero) s ≡ run_job sdk host (pull zero s.jobs) s =
        rw e (refl) in
      by_move (process zero) one_less (live ∙ ap (λ js. run_job sdk host (pull zero js) s) j)
        (from_waiting xs one_less refl e w o)

  from_open :
      (shutdown : Shutdown) (s : Server sdk.State)
      → s.main ≡ added
      → s.shutdown ≡ shutdown
      → IsInStep added shutdown s.shutdown_done
      → CanExit s
  unfolding shutdown_handler
  from_open not_called s e w (inl (still, o)) =
      by_move shut_down (record s { shutdown = waiting })
        (shut_down-step sdk host not_called s (rw e) w)
        (from_waiting s.jobs (record s { shutdown = waiting }) refl e refl o)
  from_open waiting s e w (inl (still, o)) = from_waiting s.jobs s refl e w o
  from_open (flushed seen) s e w (inl (still, o)) = from_flushed seen s e w o
  from_open (finished seen) s e w (inl (still, o)) = absurd still
  from_open shutdown s e w (inr (f, z)) = from_done s e z

  -- From every state that the server reaches in which Run has called Add, it can come to one in which
  -- Run has returned, whatever goroutines run and wherever the shutdown handler is.
  pub Reach-CanExit :
      {world : sdk.State} {s : Server sdk.State}
      → Reach sdk host (initial sdk host world) s
      → s.main ≡ added
      → CanExit s
  Reach-CanExit {s = s} r e =
      let inv = Reach-Inv sdk host r in from_open s.shutdown s e refl (rw e at inv.in_step)
