-- ===== src/Breaker.antt =====
-- internal/circuitbreaker/breaker.go. Every method holds the mutex, so a concurrent history is a
-- sequence of calls; `b.now()` is an argument, a reading in nanoseconds. `Execute` takes what its
-- `fn` does as a function on a state of the caller's, and how its context ends as a `Context`.
pub mod Invariant
pub mod Probes
mod Examples
use learn_rag.Common.{ℕ, suc, ◌+◌, Bool, true, false, ◌&&◌, Option, none, some, List, [], ◌∷◌}
use learn_rag.Common.{if◌then◌else◌}
use learn_rag.Common.Int.{ℤ, pos, sub_ℕ, leb_ℤ, ltb_ℤ}
use learn_rag.Errors.{Err, plain}

pub data State : Type 0 where
  closed opened half_open : State

pub record Config : Type 0 where
  pub max_failures : ℤ
  pub timeout : ℤ
  pub half_open_max_calls : ℤ

pub record Breaker : Type 0 where
  pub config : Config
  pub state : State
  pub failures : ℕ
  pub opened_at : ℕ
  pub half_open_calls : ℕ

abbrev pub err_open : Err
err_open = plain "circuit breaker open"

-- `New`.
unfoldable pub new : Config → Breaker
new cfg = record { config = cfg; state = closed; failures = 0; opened_at = 0; half_open_calls = 0 }

-- `open`.
open_breaker : ℕ → Breaker → Breaker
open_breaker now b = record b { state = opened; opened_at = now; half_open_calls = 0 }

abbrev is_opened : State → Bool
is_opened opened = true
is_opened _ = false

-- `evaluateTimeout`.
unfoldable pub evaluate_timeout : ℕ → Breaker → Breaker
evaluate_timeout now b =
    if is_opened b.state
    then if leb_ℤ b.config.timeout (pos 0)
      then b
      else if leb_ℤ b.config.timeout (sub_ℕ now b.opened_at)
      then record b { state = half_open; half_open_calls = 0 }
      else b
    else b

-- The `switch` of `allowAcquire`.
acquire_in : State → Breaker → Breaker × Bool
acquire_in opened b = (b, false)
acquire_in half_open b =
    if ltb_ℤ (pos 0) b.config.half_open_max_calls
      && leb_ℤ b.config.half_open_max_calls (pos b.half_open_calls)
    then (b, false)
    else (record b { half_open_calls = b.half_open_calls + 1 }, true)
acquire_in closed b = (b, true)

-- `allowAcquire`.
unfoldable pub allow_acquire : ℕ → Breaker → Breaker × Bool
unfolding acquire_in evaluate_timeout
allow_acquire now b = let b' = evaluate_timeout now b in acquire_in b'.state b'

-- The success part of `record`.
record_success : State → Breaker → Breaker
record_success half_open b = record b { state = closed; failures = 0; half_open_calls = 0 }
record_success _ b = record b { failures = 0; half_open_calls = 0 }

-- The failure part of `record`.
record_failure : State → ℕ → Breaker → Breaker
unfolding open_breaker
record_failure half_open now b = open_breaker now b
record_failure closed now b =
    let b' = record b { failures = b.failures + 1 } in
    if ltb_ℤ (pos 0) b.config.max_failures && leb_ℤ b.config.max_failures (pos b'.failures)
    then open_breaker now b'
    else b'
record_failure opened now b = b

-- `record`.
unfoldable pub record_result : Option Err → ℕ → Breaker → Breaker
unfolding record_success record_failure
record_result none now b = record_success b.state b
record_result (some err) now b = record_failure b.state now b

-- `State()`.
unfoldable pub current_state : ℕ → Breaker → Breaker × State
unfolding evaluate_timeout
current_state now b = let b' = evaluate_timeout now b in (b', b'.state)

-- How the caller's context ends: never (nil, or no `Done` channel), after `fn`, or before it.
pub data Context : Type 0 where
  background live : Context
  cancelled : Err → Context

-- A Go pair of a value and an error.
abbrev pub Outcome : Type 0 → Type 0
Outcome A = A × Option Err

module _ {A S : Type 0} where
  run_call : Context → A → ℕ → (Outcome A) × S → Breaker → (Outcome A) × Breaker × S
  unfolding record_result
  run_call background zero now (r, s) b = (r, record_result r.1 now b, s)
  run_call live zero now (r, s) b = (r, record_result r.1 now b, s)
  run_call (cancelled err) zero now (r, s) b = ((zero, some err), b, s)

  -- `Execute`: `now` and `later` are the clock at the acquisition and when the result is recorded;
  -- a cancelled call still runs `fn` in the background, and drops its result.
  unfoldable pub execute :
      Context → A → ℕ → ℕ → (S → (Outcome A) × S) → Breaker → S → (Outcome A) × Breaker × S
  unfolding run_call allow_acquire
  execute ctx zero now later fn b s =
      let (b', allowed) = allow_acquire now b in
      let ran = run_call ctx zero later (fn s) b' in
      if allowed then ran else ((zero, some err_open), b', s)

-- A call of one of the three entry points under the mutex; any interleaving of concurrent users is
-- a list of these.
pub data Event : Type 0 where
  acquire : ℕ → Event
  recorded : Option Err → ℕ → Event
  queried : ℕ → Event

unfoldable pub step : Event → Breaker → Breaker
unfolding allow_acquire record_result current_state
step (acquire now) b = (allow_acquire now b).0
step (recorded err now) b = record_result err now b
step (queried now) b = (current_state now b).0

unfoldable pub run : List Event → Breaker → Breaker
run [] b = b
run (e ∷ es) b = run es (step e b)
