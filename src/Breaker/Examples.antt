-- ===== src/Breaker/Examples.antt =====
-- A breaker as the providers configure it: three failures, a timeout of 30 (seconds), one probe.
use learn_rag.Common.{ℕ, suc, ◌≤◌, ◌<◌, ◌≡◌, refl, false, none, some}
use learn_rag.Common.{List, [], ◌∷◌, ◌++◌, arith, inr, map}
use learn_rag.Common.Int.{pos}
use learn_rag.Errors.{Err, plain}
use learn_rag.Breaker.{
  closed, opened, Config, Breaker, err_open, new, live, cancelled, Outcome, execute, Event, acquire,
  recorded, step, run,
}
use learn_rag.Breaker.Invariant.{probes, Inv, run-Inv}
use learn_rag.Breaker.Probes.{
  fail_times, trips_exactly, execute_opened, execute_probe, acquire_all, cancelled_probe_sticks,
}

abbrev cfg : Config
cfg = record { max_failures = pos 3; timeout = pos 30; half_open_max_calls = pos 1 }

abbrev down : Err
down = plain "down"

abbrev outage : List Event
outage = acquire 1 ∷ recorded (some down) 2 ∷ recorded (some down) 3 ∷ recorded (some down) 4 ∷ []

outage_opens : (run outage (new cfg)).state ≡ opened
unfolding run new step
outage_opens = refl

abbrev recovery : List Event
recovery = acquire 40 ∷ acquire 41 ∷ []

one_probe : probes (outage ++ recovery) (new cfg) 0 ≡ 1
unfolding probes new step
one_probe = refl

run-Inv_example :
    Inv cfg (probes (outage ++ recovery) (new cfg) 0) (run (outage ++ recovery) (new cfg))
run-Inv_example = run-Inv cfg (outage ++ recovery)

trips_exactly_example :
    let b' = fail_times down (5 ∷ 6 ∷ 7 ∷ []) (new cfg) in
    (3 < 3 → (b'.state ≡ closed) × (b'.failures ≡ 3)) × (3 ≤ 3 → b'.state ≡ opened)
unfolding new
trips_exactly_example = trips_exactly down (5 ∷ 6 ∷ 7 ∷ []) 3 (new cfg) refl refl refl (omega arith)

abbrev tripped : Breaker
tripped = record { config = cfg; state = opened; failures = 3; opened_at = 4; half_open_calls = 0 }

-- A call that counts how often it ran.
abbrev works : ℕ → (Outcome ℕ) × ℕ
works n = ((7, none), suc n)

execute_opened_example : execute live 0 20 21 works tripped 0 ≡ ((0, some err_open), tripped, 0)
execute_opened_example = execute_opened live 0 20 21 works tripped 0 refl (inr (omega arith))

execute_probe_example :
    let (r, b', s') = execute live 0 40 41 works tripped 0 in
    (r ≡ (works 0).0)
    × (s' ≡ 1)
    × (r.1 ≡ none → b' ≡ record tripped { state = closed; failures = 0; half_open_calls = 0 })
    × ((err : Err)
        → r.1 ≡ some err
        → b' ≡ record tripped { state = opened; opened_at = 41; half_open_calls = 0 })
execute_probe_example = execute_probe 0 40 41 29 works tripped 0 refl refl (omega arith)

cancelled_probe_sticks_example :
    let b' = (execute (cancelled down) 0 40 41 works tripped 0).1 in
    acquire_all (50 ∷ 1000 ∷ []) b' ≡ (b', map {A = ℕ} (λ _. false) (50 ∷ 1000 ∷ []))
cancelled_probe_sticks_example =
    cancelled_probe_sticks 0 down 40 41 29 works tripped 0 (50 ∷ 1000 ∷ []) refl refl (omega arith)
      refl
