-- ===== src/Agent/Command/Tests.antt =====
-- An agent whose third discovery fails.
use agents_kong.Prelude.{ℕ, suc, String, ◌≡◌, refl, Option, none, some, nat_eq, if◌then◌else◌}
use agents_kong.Prelude.Go.{ok, err, ret}
use agents_kong.Prelude.Exec.{Exec, pure}
use agents_kong.Agent.Command.{polling, returned, run}

-- The state is the number of the discoveries.
abbrev discover : ℕ → String → Exec ℕ (Option String)
discover polls agent n = (ret (if nat_eq n 2 then some "failed to get services" else none), suc n)

polls_on : run discover 2 (pure (ok "agent")) 0 ≡ (ret polling, 2)
unfolding run
polls_on = refl

stops : run discover 10 (pure (ok "agent")) 0 ≡ (ret (returned "failed to get services"), 3)
unfolding run
stops = refl

no_agent : run discover 10 (pure (err "no agent")) 0 ≡ (ret (returned "no agent"), 0)
unfolding run
no_agent = refl
