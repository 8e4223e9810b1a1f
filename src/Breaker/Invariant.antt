-- ===== src/Breaker/Invariant.antt =====
-- What holds of a circuit breaker after any history of calls, by any number of concurrent users.
use learn_rag.Common.{ℕ, ◌+◌, ◌<◌, ◌≡◌, Bool, true, false, none, some, if◌then◌else◌}
use learn_rag.Common.{List, [], ◌∷◌, arith}
use learn_rag.Common.Int.{pos, ◌<ℤ◌, ◌≤ℤ◌}
use learn_rag.Breaker.{
  State, closed, half_open, Config, Breaker, new, Event, acquire, recorded, queried, allow_acquire,
  step, run,
}

-- The acquisition that an event is lets a call through.
abbrev lets_through : Event → Breaker → Bool
lets_through (acquire now) b = (allow_acquire now b).1
lets_through (recorded _ _) b = false
lets_through (queried _) b = false

abbrev is_half_open : State → Bool
is_half_open half_open = true
is_half_open _ = false

-- The calls let through while the breaker has been half-open without interruption, if it is so after the event.
abbrev let_through : Event → Breaker → ℕ → ℕ
let_through e b n =
    if is_half_open (step e b).state
    then (if is_half_open b.state then n else 0) + (if lets_through e b then 1 else 0)
    else 0

-- The same after a history; it looks at what the acquisitions answered, not at the breaker's counter.
unfoldable pub probes : List Event → Breaker → ℕ → ℕ
unfolding allow_acquire step
probes [] b n = n
probes (e ∷ es) b n = probes es (step e b) (let_through e b n)

-- `n` probes have been let through since the breaker became half-open.
pub record Inv (cfg : Config) (n : ℕ) (b : Breaker) : Type 0 where
  pub same_config : b.config ≡ cfg
  pub below_trip : b.state ≡ closed → pos 0 <ℤ cfg.max_failures → pos b.failures <ℤ cfg.max_failures
  pub same_count : b.half_open_calls ≡ n
  pub probes_capped : pos 0 <ℤ cfg.half_open_max_calls → pos n ≤ℤ cfg.half_open_max_calls
  pub probes_only_half_open : 0 < n → b.state ≡ half_open

new-Inv : (cfg : Config) → Inv cfg 0 (new cfg)
unfolding new
new-Inv cfg = ground arith

step-Inv :
    (cfg : Config) (e : Event) (n : ℕ) (b : Breaker)
    → Inv cfg n b
    → Inv cfg (let_through e b n) (step e b)
unfolding step allow_acquire
step-Inv cfg (acquire now) n b h = ground arith
step-Inv cfg (recorded none now) n b h = ground arith
step-Inv cfg (recorded (some err) now) n b h = ground arith
step-Inv cfg (queried now) n b h = ground arith

run_from-Inv :
    (cfg : Config) (es : List Event) (n : ℕ) (b : Breaker)
    → Inv cfg n b
    → Inv cfg (probes es b n) (run es b)
unfolding run probes
run_from-Inv cfg [] n b h = h
run_from-Inv cfg (e ∷ es) n b h =
    run_from-Inv cfg es (let_through e b n) (step e b) (step-Inv cfg e n b h)

-- After any sequence of acquisitions, recorded results and state queries, at any clock readings, on
-- a new breaker: the configuration is unchanged; a closed breaker has counted fewer failures than
-- `MaxFailures`, if that is positive; the acquisitions that have answered yes since it became half-open
-- are at most `HalfOpenMaxCalls`, if that is positive, and its counter is their number, which is zero
-- unless it is half-open.
pub run-Inv : (cfg : Config) (es : List Event) → Inv cfg (probes es (new cfg) 0) (run es (new cfg))
run-Inv cfg es = run_from-Inv cfg es 0 (new cfg) (new-Inv cfg)
