-- ===== src/Traceability/Beater.antt =====
-- pkg/traceability/beater/beater.go: the HTTP server of the traceability agent, its goroutines and
-- its shutdown, as the moves of one program.
pub mod Counts
pub mod Invariant
pub mod Ends
pub mod Drain
pub mod Health
mod Tests
use agents_kong.Prelude.{
  ◌≡◌, ℕ, zero, suc, String, Bool, true, false, not, ◌||◌, ltb, Option, none, some, List, [], ◌∷◌,
  ◌==◌, length, is_empty, if◌then◌else◌,
}
use agents_kong.Prelude.Go.{Result, ok, err}
use agents_kong.Prelude.Exec.{Call, Exec, pure, ◌>>=◌}
use agents_kong.Traceability.Sdk.{Sdk}
use agents_kong.Traceability.Transaction.{Entry}
use agents_kong.Traceability.Handler.{handle}

-- The loop of New on fuel: the number of the first health check that is OK. `check n` is the answer
-- of the check of that number.
unfoldable pub health_loop : (ℕ → Bool) → ℕ → ℕ → Option ℕ
health_loop check zero attempt = none
health_loop check (suc fuel) attempt =
    let later = health_loop check fuel (suc attempt) in
    if check attempt then some attempt else later

-- the data of a body that could be read
unfoldable pub body_data : Result String → Option String
body_data (err e) = none
body_data (ok data_read) = some data_read

-- HandleEvent: the status of the answer, and the data that it gives to a goroutine.
unfoldable pub handle_event : String → Result String → ℕ × Option String
unfolding body_data
handle_event method body = if not (method == "POST") then (405, none) else (200, body_data body)

-- What the beater uses of its process, of the SDK and of the publisher. `get_resources` lists the
-- agent's resources in Central, and the answer of the deletion is not looked at.
pub record Host (sdk : Sdk) : Type 0 where
  pub decode : String → Result (List (Entry sdk))
  pub publish_all : List sdk.Event → sdk.State → sdk.State
  pub shutdown_publish : sdk.State → sdk.State
  pub pod_name : String
  pub is_failed : sdk.State → Bool
  pub is_unhealthy : sdk.State → Bool
  pub get_resources : Call sdk.State (List String)
  pub delete_resource_instance : sdk.State → sdk.State

-- How far the shutdown handler is; the lists are the data that were accepted when it went past its
-- wait.
pub data Shutdown : Type 0 where
  not_called : Shutdown
  waiting : Shutdown
  flushed : List String → Shutdown
  finished : List String → Shutdown

-- How far Run is: in ListenAndServe, after it, after the call of Add, or returned. `crashed` is the
-- panic of a WaitGroup whose counter is negative, which ends the process.
pub data Main : Type 0 where
  listening : Main
  closed : Main
  added : Main
  exited : Main
  crashed : Main

pub record Server (S : Type 0) : Type 0 where
  pub world : S
  -- the data of the goroutines that run: `processing` counts them
  pub jobs : List String
  -- all the data that were given to a goroutine, and those of the goroutines that ended
  pub accepted : List String
  pub processed : List String
  -- the data of the goroutines that the end of the process cut off
  pub lost : List String
  pub shutdown : Shutdown
  -- the counter of `shutdownDone`
  pub shutdown_done : ℕ
  pub main : Main

-- One move: a request, the goroutine at a position, the shutdown handler, or Run. The server's
-- Shutdown lets ListenAndServe return, which is a move of Run.
pub data Move : Type 0 where
  request : String → Result String → Move
  process : ℕ → Move
  shut_down : Move
  run : Move

-- The end of the process: Run has returned, or a panic. The goroutines that still run are cut off.
abbrev pub end_process : {S : Type 0} → Main → Server S → Server S
end_process last s = record s { jobs = []; lost = s.jobs; main = last }

-- the element at a position, with the others
unfoldable pub pull : ℕ → List String → Option (String × List String)
pull n [] = none
pull zero (x ∷ xs) = some (x, xs)
pull (suc n) (x ∷ xs) = elim (pull n xs) [ none ↦ none | some r ↦ some (r.0, x ∷ r.1) ]

abbrev pub is_alive : Main → Bool
is_alive exited = false
is_alive crashed = false
is_alive _ = true

module _ (sdk : Sdk) (host : Host sdk) where
  -- what follows the reading of the entries
  unfoldable pub process_entries : Result (List (Entry sdk)) → Exec sdk.State (Unit {0})
  process_entries (err e) = pure tt
  process_entries (ok entries) = do
    events ← handle sdk entries
    λ s. (pure tt) (host.publish_all events s)

  -- the goroutine of HandleEvent
  unfoldable pub process_data : String → Exec sdk.State (Unit {0})
  unfolding process_entries
  process_data log_data = process_entries (host.decode log_data)

  -- the last resource of the agent stays, and so does it if the listing fails
  unfoldable pub clean_listed : Result (List String) → sdk.State → sdk.State
  clean_listed (err e) s = s
  clean_listed (ok res) s = if ltb 1 (length res) then host.delete_resource_instance s else s

  unfoldable pub clean_resource : sdk.State → sdk.State
  unfolding clean_listed
  clean_resource s =
      if host.pod_name == ""
      then s
      else if host.is_failed s || host.is_unhealthy s
      then s
      else let (listed, s') = host.get_resources s in clean_listed listed s'

  -- a goroutine is started for the data
  unfoldable pub start_job : Option String → Server sdk.State → Server sdk.State
  start_job none s = s
  start_job (some log_data) s = record s {
    jobs = log_data ∷ s.jobs;
    accepted = log_data ∷ s.accepted;
  }

  unfoldable pub run_job :
      Option (String × List String) → Server sdk.State → Option (Server sdk.State)
  run_job none s = none
  run_job (some (log_data, others)) s = some (record s {
    jobs = others;
    processed = log_data ∷ s.processed;
    world = (process_data log_data s.world).1;
  })

  -- shutdownDone.Done()
  unfoldable pub shutdown_over : List String → ℕ → Server sdk.State → Server sdk.State
  shutdown_over seen zero s = end_process crashed (record s { shutdown = finished seen })
  shutdown_over seen (suc n) s = record s { shutdown = finished seen; shutdown_done = n }

  -- the shutdown handler: it is called, it waits for the goroutines, publishes and cleans, and ends
  unfoldable pub shutdown_handler : Shutdown → Server sdk.State → Option (Server sdk.State)
  unfolding shutdown_over clean_resource
  shutdown_handler not_called s = some (record s { shutdown = waiting })
  shutdown_handler waiting s =
      if is_empty s.jobs
      then some (record s {
        shutdown = flushed s.accepted;
        world = clean_resource (host.shutdown_publish s.world);
      })
      else none
  shutdown_handler (flushed seen) s = some (shutdown_over seen s.shutdown_done s)
  shutdown_handler (finished seen) s = none

  -- shutdownDone.Wait()
  unfoldable pub run_over : ℕ → Server sdk.State → Option (Server sdk.State)
  run_over zero s = some (end_process exited s)
  run_over (suc n) s = none

  unfoldable pub run_main : Main → Server sdk.State → Option (Server sdk.State)
  unfolding run_over
  run_main listening s = some (record s { main = closed })
  run_main closed s = some (record s { main = added; shutdown_done = suc s.shutdown_done })
  run_main added s = run_over s.shutdown_done s
  run_main exited s = none
  run_main crashed s = none

  unfoldable pub moved : Move → Server sdk.State → Option (Server sdk.State)
  unfolding handle_event start_job pull run_job shutdown_handler run_main
  moved (request method body) s = some (start_job (handle_event method body).1 s)
  moved (process n) s = run_job (pull n s.jobs) s
  moved shut_down s = shutdown_handler s.shutdown s
  moved run s = run_main s.main s

  -- A process that has ended does not move; a move that has to wait gives nothing.
  unfoldable pub step : Move → Server sdk.State → Option (Server sdk.State)
  unfolding moved
  step m s = if is_alive s.main then moved m s else none

  abbrev pub initial : sdk.State → Server sdk.State
  initial world = record {
    world = world;
    jobs = [];
    accepted = [];
    processed = [];
    lost = [];
    shutdown = not_called;
    shutdown_done = 0;
    main = listening;
  }

  -- What the server comes to by moves.
  pub data Reach (s : Server sdk.State) : Server sdk.State → Type 0 where
    here : Reach s s
    next : {t u : Server sdk.State} → Reach s t → (m : Move) → step m t ≡ some u → Reach s u
