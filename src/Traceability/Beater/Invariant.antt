-- ===== src/Traceability/Beater/Invariant.antt =====
-- What holds of the server in every state that it reaches.
use agents_kong.Prelude.{
  ℕ, zero, suc, ◌+◌, ◌≤◌, String, true, false, ◌≡◌, refl, ◌⊎◌, inl, inr, Option, none, some, List,
  [], ◌∷◌, is_empty, arith, Bool-cases, if◌then◌else◌,
}
use agents_kong.Traceability.Sdk.{Sdk}
use agents_kong.Traceability.Beater.{
  Host, Shutdown, not_called, waiting, flushed, finished, Main, listening, closed, added, exited,
  crashed, Server, Move, request, process, shut_down, run, pull, is_alive, start_job, run_job,
  shutdown_over, shutdown_handler, run_over, run_main, moved, step, initial, Reach, here, next,
  handle_event, end_process,
}
use agents_kong.Prelude.Counts.{count}
use agents_kong.Traceability.Beater.Counts.{Holds, IsSplit, pull-IsSplit}

abbrev pub IsFinished : Shutdown → Type 0
IsFinished (finished seen) = Unit
IsFinished _ = ⊥

abbrev pub IsOpen : Shutdown → Type 0
IsOpen (finished seen) = ⊥
IsOpen _ = Unit

-- How Run, the shutdown handler and the counter between them stand to each other.
abbrev pub IsInStep : Main → Shutdown → ℕ → Type 0
IsInStep listening shutdown n = IsOpen shutdown × (n ≡ 0)
IsInStep closed shutdown n = IsOpen shutdown × (n ≡ 0)
IsInStep added shutdown n = (IsOpen shutdown × (n ≡ 1)) ⊎ (IsFinished shutdown × (n ≡ 0))
IsInStep exited shutdown n = IsFinished shutdown
IsInStep crashed shutdown n = IsFinished shutdown

-- What was accepted before the handler went past its wait is among what was processed.
abbrev pub IsSeen : Shutdown → List String → Type 0
IsSeen (flushed seen) processed = (d : String) → count d seen ≤ count d processed
IsSeen (finished seen) processed = (d : String) → count d seen ≤ count d processed
IsSeen _ processed = Unit

pub record Inv {S : Type 0} (s : Server S) : Type 0 where
  pub conserved :
      (d : String) → count d s.accepted ≡ count d s.jobs + (count d s.processed + count d s.lost)
  pub kept : (s.lost ≡ []) ⊎ (is_alive s.main ≡ false)
  pub seen : IsSeen s.shutdown s.processed
  pub in_step : IsInStep s.main s.shutdown s.shutdown_done

IsSeen-more :
    (shutdown : Shutdown) (x : String) (processed : List String)
    → IsSeen shutdown processed
    → IsSeen shutdown (x ∷ processed)
unfolding count
IsSeen-more not_called x processed h = h
IsSeen-more waiting x processed h = h
IsSeen-more (flushed seen) x processed h = λ d. omega (arith, h d)
IsSeen-more (finished seen) x processed h = λ d. omega (arith, h d)

-- The end of the process loses what still runs, where nothing was lost before.
end_process-conserved :
    {S : Type 0} (main : Main) (s : Server S)
    → is_alive s.main ≡ true
    → Inv s
    → (d : String)
    → count d s.accepted
      ≡ count d (end_process main s).jobs
        + (count d (end_process main s).processed + count d (end_process main s).lost)
unfolding count
end_process-conserved main s alive inv d = elim inv.kept [
  | inl none_lost ↦
      let all : count d s.accepted ≡ count d s.jobs + (count d s.processed + count d []) =
        rw none_lost at (inv.conserved d) in
      omega (arith, all)
  | inr ended ↦ cc
]

module _ (sdk : Sdk) (host : Host sdk) where
  start-Inv :
      (data_read : Option String) (s : Server sdk.State)
      → Inv s
      → Inv (start_job sdk host data_read s)
  unfolding start_job count
  start-Inv none s inv = inv
  start-Inv (some x) s inv = record {
    conserved = λ d. omega (arith, inv.conserved d);
    seen = inv.seen;
    kept = inv.kept;
    in_step = inv.in_step;
  }

  run_job-Inv :
      (pulled : Option (String × List String)) (s : Server sdk.State)
      → Holds (IsSplit s.jobs) pulled
      → Inv s
      → Holds Inv (run_job sdk host pulled s)
  unfolding run_job count
  run_job-Inv none s split inv = tt
  run_job-Inv (some (x, others)) s split inv = record {
    conserved = λ d. omega (arith, inv.conserved d, split d);
    seen = IsSeen-more s.shutdown x s.processed inv.seen;
    kept = inv.kept;
    in_step = inv.in_step;
  }

  -- Only an open handler can end, and Run has called Add by then if the process lives on.
  over-IsInStep :
      (main : Main) (seen : List String) (n : ℕ)
      → IsInStep main (flushed seen) (suc n)
      → IsInStep main (finished seen) n
  over-IsInStep listening seen n (still, e) = cc
  over-IsInStep closed seen n (still, e) = cc
  over-IsInStep added seen n (inl (still, e)) = inr (tt, ground arith)
  over-IsInStep added seen n (inr (f, e)) = absurd f
  over-IsInStep exited seen n f = tt
  over-IsInStep crashed seen n f = tt

  not_both : (shutdown : Shutdown) → IsOpen shutdown → IsFinished shutdown → ⊥
  not_both not_called o f = f
  not_both waiting o f = f
  not_both (flushed seen) o f = f
  not_both (finished seen) o f = o

  open-IsInStep :
      (main : Main) (before after : Shutdown) (n : ℕ)
      → IsOpen before
      → IsOpen after
      → is_alive main ≡ true
      → IsInStep main before n
      → IsInStep main after n
  open-IsInStep listening before after n b a alive h = (a, h.1)
  open-IsInStep closed before after n b a alive h = (a, h.1)
  open-IsInStep added before after n b a alive (inl (still, e)) = inl (a, e)
  open-IsInStep added before after n b a alive (inr (f, e)) = absurd (not_both before b f)
  open-IsInStep exited before after n b a alive h = cc
  open-IsInStep crashed before after n b a alive h = cc

  -- the handler goes past its wait
  flush-Inv :
      (jobs : List String) (s : Server sdk.State) (world : sdk.State)
      → s.jobs ≡ jobs
      → s.shutdown ≡ waiting
      → is_alive s.main ≡ true
      → Inv s
      → Holds Inv (
          if is_empty jobs
          then some (record s { shutdown = flushed s.accepted; world = world })
          else none)
  unfolding count
  flush-Inv [] s world j e alive inv = record {
    conserved = inv.conserved;
    seen = λ d.
        let all : count d s.accepted ≡ count d [] + (count d s.processed + count d s.lost) =
          rw j at (inv.conserved d) in
        elim inv.kept [
          | inl none_lost ↦
              let some_left : count d s.accepted ≡ count d [] + (count d s.processed + count d []) =
                rw none_lost at all in
              omega (arith, some_left)
          | inr ended ↦ cc
        ];
    kept = inv.kept;
    in_step =
        open-IsInStep s.main waiting (flushed s.accepted) s.shutdown_done tt tt alive
          (rw e at inv.in_step);
  }
  flush-Inv (x ∷ xs) s world j e alive inv = tt

  over-Inv :
      (seen : List String) (n : ℕ) (s : Server sdk.State)
      → s.shutdown ≡ flushed seen
      → s.shutdown_done ≡ n
      → is_alive s.main ≡ true
      → Inv s
      → Inv (shutdown_over sdk host seen n s)
  unfolding shutdown_over
  over-Inv seen zero s e k alive inv = record {
    conserved = end_process-conserved crashed s alive inv;
    seen = rw e at inv.seen;
    kept = inr refl;
    in_step = tt;
  }
  over-Inv seen (suc n) s e k alive inv = record {
    conserved = inv.conserved;
    seen = rw e at inv.seen;
    kept = inv.kept;
    in_step = over-IsInStep s.main seen n (rw (e, k) at inv.in_step);
  }

  exit-Inv :
      (n : ℕ) (s : Server sdk.State)
      → s.shutdown_done ≡ n
      → s.main ≡ added
      → Inv s
      → Holds Inv (run_over sdk host n s)
  unfolding run_over
  exit-Inv zero s k e inv =
      let ready : IsInStep added s.shutdown zero = rw (e, k) at inv.in_step in
      record {
        conserved = end_process-conserved exited s (rw e) inv;
        seen = inv.seen;
        kept = inr refl;
        in_step = elim ready [ inl (still, bad) ↦ absurd (omega (arith, bad)) | inr (f, z) ↦ f ];
      }
  exit-Inv (suc n) s k e inv = tt

  handler-Inv :
      (shutdown : Shutdown) (s : Server sdk.State)
      → s.shutdown ≡ shutdown
      → is_alive s.main ≡ true
      → Inv s
      → Holds Inv (shutdown_handler sdk host shutdown s)
  unfolding shutdown_handler
  handler-Inv not_called s e alive inv = record {
    conserved = inv.conserved;
    seen = tt;
    kept = inv.kept;
    in_step =
        open-IsInStep s.main not_called waiting s.shutdown_done tt tt alive (rw e at inv.in_step);
  }
  handler-Inv waiting s e alive inv = flush-Inv s.jobs s _ refl e alive inv
  handler-Inv (flushed seen) s e alive inv = over-Inv seen s.shutdown_done s e refl alive inv
  handler-Inv (finished seen) s e alive inv = tt

  kept_alive :
      (s : Server sdk.State)
      → is_alive s.main ≡ true
      → (main : Main) → (s.lost ≡ []) ⊎ (is_alive s.main ≡ false)
      → (s.lost ≡ []) ⊎ (is_alive main ≡ false)
  kept_alive s alive main (inl none_lost) = inl none_lost
  kept_alive s alive main (inr ended) = cc

  main-Inv :
      (main : Main) (s : Server sdk.State)
      → s.main ≡ main
      → Inv s
      → Holds Inv (run_main sdk host main s)
  unfolding run_main
  main-Inv listening s e inv = record {
    conserved = inv.conserved;
    seen = inv.seen;
    kept = kept_alive s (rw e) closed inv.kept;
    in_step = rw e at inv.in_step;
  }
  main-Inv closed s e inv = record {
    conserved = inv.conserved;
    seen = inv.seen;
    kept = kept_alive s (rw e) added inv.kept;
    in_step =
        let (still, n) : IsInStep closed s.shutdown s.shutdown_done = rw e at inv.in_step in
        inl (still, omega (arith, n));
  }
  main-Inv added s e inv = exit-Inv s.shutdown_done s refl e inv
  main-Inv exited s e inv = tt
  main-Inv crashed s e inv = tt

  moved-Inv :
      (m : Move) (s : Server sdk.State)
      → is_alive s.main ≡ true
      → Inv s
      → Holds Inv (moved sdk host m s)
  unfolding moved
  moved-Inv (request method body) s alive inv = start-Inv (handle_event method body).1 s inv
  moved-Inv (process n) s alive inv = run_job-Inv (pull n s.jobs) s (pull-IsSplit n s.jobs) inv
  moved-Inv shut_down s alive inv = handler-Inv s.shutdown s refl alive inv
  moved-Inv run s alive inv = main-Inv s.main s refl inv

  step-Inv : (m : Move) (s : Server sdk.State) → Inv s → Holds Inv (step sdk host m s)
  unfolding step
  step-Inv m s inv = elim (Bool-cases (is_alive s.main)) [
    | inl alive ↦ rw alive (moved-Inv m s alive inv)
    | inr ended ↦ rw ended (tt)
  ]

  initial-Inv : (world : sdk.State) → Inv (initial sdk host world)
  unfolding count
  initial-Inv world = record {
    conserved = λ d. refl;
    seen = tt;
    kept = inl refl;
    in_step = (tt, refl);
  }

  pub Reach-Inv :
      {world : sdk.State} {s : Server sdk.State} → Reach sdk host (initial sdk host world) s → Inv s
  Reach-Inv {world} here = initial-Inv world
  Reach-Inv (next {t} r m e) =
      let kept : Holds Inv (step sdk host m t) = step-Inv m t (Reach-Inv r) in rw e at kept
