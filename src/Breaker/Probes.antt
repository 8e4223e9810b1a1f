-- ===== src/Breaker/Probes.antt =====
-- How a circuit breaker trips, refuses, probes and recovers.
use learn_rag.Common.{ℕ, suc, ◌+◌, ◌≤◌, ◌<◌, ◌≡◌, refl, Bool, true, false, none, some}
use learn_rag.Common.{List, [], ◌∷◌, arith, ◌⊎◌, map, length}
use learn_rag.Common.Int.{pos, ◌<ℤ◌, ◌≤ℤ◌, sub_ℕ}
use native.Mathlib.Decide.{dec_lt}
use learn_rag.Errors.{Err}
use learn_rag.Breaker.{
  closed, opened, half_open, Breaker, err_open, allow_acquire, record_result, Context, live,
  cancelled, Outcome, execute,
}

-- `n` failures in a row, at the given clock readings.
unfoldable pub fail_times : Err → List ℕ → Breaker → Breaker
fail_times err [] b = b
fail_times err (now ∷ times) b = fail_times err times (record_result (some err) now b)

fail_opened :
    (err : Err) (times : List ℕ) (b : Breaker) → b.state ≡ opened → fail_times err times b ≡ b
unfolding fail_times record_result
fail_opened err [] b h = refl
fail_opened err (now ∷ times) b h = ground (arith, fail_opened err times b h)

fail_one :
    (err : Err) (now m : ℕ) (b : Breaker)
    → b.state ≡ closed
    → b.config.max_failures ≡ pos m
    → 0 < m
    → let b' = record_result (some err) now b in
      (b'.config ≡ b.config)
      × (suc b.failures < m → (b'.state ≡ closed) × (b'.failures ≡ suc b.failures))
      × (m ≤ suc b.failures → b'.state ≡ opened)
unfolding record_result
fail_one err now m b h c p = ground arith

fail_from :
    (err : Err) (times : List ℕ) (m : ℕ) (b : Breaker)
    → b.state ≡ closed
    → b.config.max_failures ≡ pos m
    → b.failures < m
    → let b' = fail_times err times b in
      (b.failures + length times < m
        → (b'.state ≡ closed) × (b'.failures ≡ b.failures + length times))
      × (m ≤ b.failures + length times → b'.state ≡ opened)
unfolding fail_times
fail_from err [] m b h c p = ground arith
fail_from err (now ∷ times) m b h c p =
    let b' = record_result (some err) now b in
    let (same, still, tripped) = fail_one err now m b h c (omega arith) in
    elim (dec_lt (suc b.failures) m) [
      | yes q ↦
          let ih = fail_from err times m b' (still q).0 (rw same c) (rw (still q).1 q) in
          ground (arith, still q)
      | no q ↦ ground (arith, fail_opened err times b')
    ]

-- From a closed breaker with no failure counted and `MaxFailures` set to a positive `m`, failures in a
-- row, with no success between them, leave it closed, with each counted, as long as there are fewer
-- than `m` of them; from `m` on it is open.
pub trips_exactly :
    (err : Err) (times : List ℕ) (m : ℕ) (b : Breaker)
    → b.state ≡ closed
    → b.failures ≡ 0
    → b.config.max_failures ≡ pos m
    → 0 < m
    → let b' = fail_times err times b in
      (length times < m → (b'.state ≡ closed) × (b'.failures ≡ length times))
      × (m ≤ length times → b'.state ≡ opened)
trips_exactly err times m b h z c p = ground (arith, fail_from err times m b h c)

module _ {A S : Type 0} (ctx : Context) (zero_value : A) (now later : ℕ) (fn : S → (Outcome A) × S)
    (b : Breaker) (s : S) where
  -- `Execute` on an open breaker, whose timeout is not positive or has not passed, returns the
  -- zero value and `ErrOpen`; `fn` is not run and the breaker does not change.
  pub execute_opened :
      b.state ≡ opened
      → (b.config.timeout ≤ℤ pos 0) ⊎ (sub_ℕ now b.opened_at <ℤ b.config.timeout)
      → execute ctx zero_value now later fn b s ≡ ((zero_value, some err_open), b, s)
  unfolding execute
  execute_opened h t = ground arith

-- The first acquisition after the timeout takes the first probe.
acquire_probe :
    (now t : ℕ) (b : Breaker)
    → b.state ≡ opened
    → b.config.timeout ≡ pos (suc t)
    → b.opened_at + suc t ≤ now
    → allow_acquire now b ≡ (record b { state = half_open; half_open_calls = 1 }, true)
unfolding allow_acquire
acquire_probe now t b h e p = ground arith

-- A probe on a breaker whose timeout has passed decides it: if `fn` succeeds the breaker is closed
-- with its counters at zero; if `fn` fails it is open again, from the time of the failure on. The
-- caller gets what `fn` returned, and `fn` ran once.
pub execute_probe :
    {A S : Type 0} (zero_value : A) (now later t : ℕ) (fn : S → (Outcome A) × S) (b : Breaker)
    (s : S)
    → b.state ≡ opened
    → b.config.timeout ≡ pos (suc t)
    → b.opened_at + suc t ≤ now
    → let (r, b', s') = execute live zero_value now later fn b s in
      (r ≡ (fn s).0)
      × (s' ≡ (fn s).1)
      × (r.1 ≡ none → b' ≡ record b { state = closed; failures = 0; half_open_calls = 0 })
      × ((err : Err)
          → r.1 ≡ some err
          → b' ≡ record b { state = opened; opened_at = later; half_open_calls = 0 })
unfolding execute
execute_probe z now later t fn b s h e p = let a = acquire_probe now t b h e p in ground (arith, a)

-- The acquisitions at a list of clock readings, with no result recorded between them.
unfoldable pub acquire_all : List ℕ → Breaker → Breaker × List Bool
acquire_all [] b = (b, [])
acquire_all (now ∷ times) b =
    let (b', allowed) = allow_acquire now b in
    let (b'', rest) = acquire_all times b' in (b'', allowed ∷ rest)

stuck :
    (times : List ℕ) (m : ℕ) (b : Breaker)
    → b.state ≡ half_open
    → b.config.half_open_max_calls ≡ pos (suc m)
    → suc m ≤ b.half_open_calls
    → acquire_all times b ≡ (b, map (λ _. false) times)
unfolding acquire_all allow_acquire
stuck [] m b h c p = refl
stuck (now ∷ times) m b h c p = ground (arith, stuck times m b h c p)

-- A breaker with one probe allowed (`HalfOpenMaxCalls` = 1, as every provider sets it), open with its
-- timeout passed, whose probe's context is cancelled before `fn` returns: the result is never
-- recorded, so every later acquisition, at whatever times, is refused, and the breaker never
-- changes again.
pub cancelled_probe_sticks :
    {A S : Type 0} (zero_value : A) (err : Err) (now later t : ℕ) (fn : S → (Outcome A) × S)
    (b : Breaker) (s : S) (times : List ℕ)
    → b.state ≡ opened
    → b.config.timeout ≡ pos (suc t)
    → b.opened_at + suc t ≤ now
    → b.config.half_open_max_calls ≡ pos 1
    → let b' = (execute (cancelled err) zero_value now later fn b s).1 in
      acquire_all times b' ≡ (b', map (λ _. false) times)
unfolding execute
cancelled_probe_sticks z err now later t fn b s times h e p c =
    let probing : Breaker = record b { state = half_open; half_open_calls = 1 } in
    rw (acquire_probe now t b h e p) (stuck times 0 probing refl c (omega arith))
