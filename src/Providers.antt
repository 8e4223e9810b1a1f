-- ===== src/Providers.antt =====
-- internal/providers: the clients of the external services, on the HTTP client and the circuit breaker. Each call
-- of a service goes through one breaker; the state of a client is its breaker and the requests so far.
pub mod Answers
pub mod CloudflareAi
pub mod DeepSeek
pub mod Groq
pub mod LlamaParse
pub mod Sample
use learn_rag.Common.{ℕ, Bool, ◌||◌, Option, none, some, ltb, leb, if◌then◌else◌}
use learn_rag.Common.Int.{ℤ, pos, leb_ℤ}
use learn_rag.Common.{◌&&◌}
use learn_rag.HttpClient.{Transport, Net}
use learn_rag.Breaker.{Context, Config, Outcome}
use learn_rag.Result.{Result, ok, err}

abbrev is_zero : ℤ → Bool
is_zero n = leb_ℤ n (pos 0) && leb_ℤ (pos 0) n

abbrev pub or_default : ℤ → ℤ → ℤ
or_default n d = if is_zero n then d else n

-- The values that `New` puts where the breaker's configuration has zeros.
unfoldable pub with_defaults : Config → Config
with_defaults cb = record {
  max_failures = or_default cb.max_failures (pos 3);
  timeout = or_default cb.timeout (pos 30000000000);
  half_open_max_calls = or_default cb.half_open_max_calls (pos 1);
}

-- What a call meets: the network, and for the n-th use of the breaker how its context ends and what its clock reads.
pub record Surroundings : Type 0 where
  pub transport : Transport
  pub context : ℕ → Context
  pub clock : ℕ → ℕ × ℕ

-- What the steps of a call give: none if the fuel of the HTTP client does not suffice.
abbrev pub Step : Type 0 → Type 0
Step A = Option (Result A) × Net

abbrev pub and_next : {A B : Type 0} → Step A → (A → Net → Step B) → Step B
and_next (none, s) next = (none, s)
and_next (some (err e), s) next = (some (err e), s)
and_next (some (ok a), s) next = next a s

-- A step as the pair that a Go function returns, with the zero value beside an error.
abbrev pub to_outcome : {A : Type 0} → A → Step A → Outcome (Option A) × Net
to_outcome z (none, s) = ((none, none), s)
to_outcome z (some (err e), s) = ((some z, some e), s)
to_outcome z (some (ok a), s) = ((some a, none), s)

-- A status that is not from 200 to 299.
abbrev pub is_failure : ℕ → Bool
is_failure status = ltb status 200 || leb 300 status
