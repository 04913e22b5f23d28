-- ===== src/Traceability/Beater/Ends.antt =====
-- How the server ends.
use agents_kong.Prelude.{
  ℕ, ◌+◌, [], arith, ◌≤◌, String, true, false, ◌≡◌, refl, sym, ap, ◌∙◌, ◌⊎◌, ◌↔◌, inl, inr, some,
  List,
}
use agents_kong.Traceability.Sdk.{Sdk}
use agents_kong.Traceability.Beater.{
  Host, Shutdown, not_called, waiting, flushed, finished, Main, listening, closed, added, exited,
  crashed, Server, shut_down, is_alive, shutdown_over, shutdown_handler, moved, step, initial,
  Reach,
}
use agents_kong.Prelude.Counts.{count}
use agents_kong.Traceability.Beater.Invariant.{IsFinished, IsInStep, IsSeen, Reach-Inv}

module _ (sdk : Sdk) (host : Host sdk) where
  finished_lem :
      (shutdown : Shutdown) (processed : List String)
      → IsFinished shutdown
      → IsSeen shutdown processed
      → (seen : List String) × (shutdown ≡ finished seen)
        × ((d : String) → count d seen ≤ count d processed)
  finished_lem not_called processed f h = absurd f
  finished_lem waiting processed f h = absurd f
  finished_lem (flushed seen) processed f h = absurd f
  finished_lem (finished seen) processed f h = (seen, refl, h)

  -- When Run has returned, the shutdown handler has ended, and all that was accepted before it went
  -- past its wait was processed.
  pub Reach-exited :
      {world : sdk.State} {s : Server sdk.State}
      → Reach sdk host (initial sdk host world) s
      → s.main ≡ exited
      → (seen : List String) × (s.shutdown ≡ finished seen)
        × ((d : String) → count d seen ≤ count d s.processed)
  Reach-exited {s = s} r e =
      let inv = Reach-Inv sdk host r in
      let ended : IsInStep exited s.shutdown s.shutdown_done = rw e at inv.in_step in
      finished_lem s.shutdown s.processed ended inv.seen

  ended-IsFinished :
      (main : Main) (shutdown : Shutdown) (n : ℕ)
      → is_alive main ≡ false
      → IsInStep main shutdown n
      → IsFinished shutdown
  ended-IsFinished listening shutdown n e h = cc
  ended-IsFinished closed shutdown n e h = cc
  ended-IsFinished added shutdown n e h = cc
  ended-IsFinished exited shutdown n e h = h
  ended-IsFinished crashed shutdown n e h = h

  -- Whatever the order of the moves, each accepted text is with the goroutines that run, with those
  -- that ended, or with those that the end of the process cut off, and with one of them only. Data
  -- are lost only where the process has ended, by then the shutdown handler has too, and beside what
  -- is lost there is all that was accepted before the handler went past its wait.
  pub Reach-conserved :
      {world : sdk.State} {s : Server sdk.State}
      → Reach sdk host (initial sdk host world) s
      → (d : String)
      → (count d s.accepted ≡ count d s.jobs + (count d s.processed + count d s.lost))
        × ((s.lost ≡ [])
            ⊎ ((is_alive s.main ≡ false)
                × (seen : List String) × (s.shutdown ≡ finished seen)
                × (count d seen + count d s.lost ≤ count d s.accepted)))
  Reach-conserved {s = s} r d =
      let inv = Reach-Inv sdk host r in
      (
        inv.conserved d,
        elim inv.kept [
          | inl none_lost ↦ inl none_lost
          | inr ended ↦
              let (seen, e, among) =
                finished_lem s.shutdown s.processed
                  (ended-IsFinished s.main s.shutdown s.shutdown_done ended inv.in_step) inv.seen in
              inr (ended, seen, e, omega (arith, inv.conserved d, among d))
        ],
      )

  -- a move of the shutdown handler
  pub shut_down-step :
      (shutdown : Shutdown) (s : Server sdk.State)
      → is_alive s.main ≡ true
      → s.shutdown ≡ shutdown
      → step sdk host shut_down s ≡ shutdown_handler sdk host shutdown s
  unfolding step moved
  shut_down-step shutdown s alive e =
      let live : step sdk host shut_down s ≡ shutdown_handler sdk host s.shutdown s =
        rw alive (refl) in
      live ∙ ap (λ phase. shutdown_handler sdk host phase s) e

  pub over-step :
      (seen : List String) (s : Server sdk.State)
      → is_alive s.main ≡ true
      → s.shutdown ≡ flushed seen
      → step sdk host shut_down s ≡ some (shutdown_over sdk host seen s.shutdown_done s)
  unfolding shutdown_handler
  over-step seen s alive e = shut_down-step (flushed seen) s alive e

  some-injective : {A : Type 0} {a b : A} → some a ≡ some b → a ≡ b
  some-injective e = cc

  alive_not_crashed : (main : Main) → is_alive main ≡ true → main ≡ crashed → ⊥
  alive_not_crashed main alive e = cc

  over_crashes :
      (main : Main) (seen : List String) (s : Server sdk.State)
      → s.main ≡ main
      → IsInStep main (flushed seen) s.shutdown_done
      → is_alive main ≡ true
      → ((shutdown_over sdk host seen s.shutdown_done s).main ≡ crashed)
        ↔ ((main ≡ listening) ⊎ (main ≡ closed))
  unfolding shutdown_over
  over_crashes listening seen s e (still, z) alive = (λ h. inl refl, λ h. rw z)
  over_crashes closed seen s e (still, z) alive = (λ h. inr refl, λ h. rw z)
  over_crashes added seen s e (inl (still, o)) alive = (
    λ h. absurd (alive_not_crashed added refl (sym e ∙ (rw o at h))),
    λ h. elim h [ inl l ↦ cc | inr c ↦ cc ],
  )
  over_crashes added seen s e (inr (f, z)) alive = absurd f
  over_crashes exited seen s e f alive = cc
  over_crashes crashed seen s e f alive = cc

  -- The end of the shutdown handler makes the process panic exactly where Run has not called Add
  -- yet: while it listens, or between the return of ListenAndServe and the call.
  pub shut_down_crashes_iff :
      {world : sdk.State} {s : Server sdk.State} (seen : List String)
      → Reach sdk host (initial sdk host world) s
      → is_alive s.main ≡ true
      → s.shutdown ≡ flushed seen
      → ((t : Server sdk.State) × (step sdk host shut_down s ≡ some t) × (t.main ≡ crashed))
        ↔ ((s.main ≡ listening) ⊎ (s.main ≡ closed))
  shut_down_crashes_iff {s = s} seen r alive e =
      let inv = Reach-Inv sdk host r in
      let iff = over_crashes s.main seen s refl (rw e at inv.in_step) alive in
      let over = over-step seen s alive e in
      (
        λ (t, same, c).
            let equal : shutdown_over sdk host seen s.shutdown_done s ≡ t =
              some-injective (sym over ∙ same) in
            iff.0 (ap (λ (u : Server sdk.State). u.main) equal ∙ c),
        λ h. (shutdown_over sdk host seen s.shutdown_done s, over, iff.1 h),
      )
