-- ===== src/Worker/Queue.antt =====
-- internal/worker/worker.go: the number of workers, the waits of the listener, the wake signals and
-- the draining of the queue.
use text.Mathlib.Text.{◌==◌ as str_eq}
use learn_rag.Common.{
  ℕ, zero, suc, ◌*◌, Bool, Option, none, some, List, [], ◌∷◌, if◌then◌else◌, ltb,
}
use learn_rag.Common.Int.{ℤ, pos, leb_ℤ, ltb_ℤ}
use learn_rag.Result.{Result, ok, err}
use learn_rag.Model.{Job}
use learn_rag.Database.{World}
use learn_rag.Repo.Jobs.{claim_next_pending}
use learn_rag.Worker.Pipeline.{Deps, process_job}

-- `concurrency`, of WORKER_CONCURRENCY.
unfoldable pub concurrency : ℤ → ℤ
concurrency n =
    let wanted = if leb_ℤ n (pos 0) then pos 3 else n in
    if ltb_ℤ (pos 5) wanted then pos 5 else wanted

abbrev pub listen_reconnect_delay : ℕ
listen_reconnect_delay = 1000000000

abbrev pub listen_max_reconnect_delay : ℕ
listen_max_reconnect_delay = 30000000000

-- The next wait of `notifyListener`.
abbrev pub next_backoff : ℕ → ℕ
next_backoff backoff =
    if ltb listen_max_reconnect_delay (backoff * 2) then listen_max_reconnect_delay else backoff * 2

-- The waits of `notifyListener` over its first reconnections.
unfoldable pub backoffs : ℕ → ℕ → List ℕ
backoffs backoff zero = []
backoffs backoff (suc n) = backoff ∷ backoffs (next_backoff backoff) n

abbrev pub wake_buffer_size : ℕ
wake_buffer_size = 32

-- `sendWake`, on the number of signals in the buffer: a full buffer drops the signal.
unfoldable pub send_wake : Bool → ℕ → ℕ
send_wake shutdown n = if shutdown then n else if ltb n wake_buffer_size then suc n else n

-- How the draining of the queue in `workerLoop` ends: the queue was empty, the shutdown began, or there was no fuel left.
pub data Drained : Type 0 where
  emptied shut_down no_fuel : Drained

-- What follows a claim; `shutdown` says whether the context had ended, by the number of calls.
abbrev pub after_claim :
    Deps → (ℕ → Bool) → (World → Drained × World) → Result (Option Job) × World → Drained × World
after_claim d shutdown again (err e, w) =
    let next = again w in if shutdown w.calls then (shut_down, w) else next
after_claim d shutdown again (ok none, w) = (emptied, w)
after_claim d shutdown again (ok (some job), w) =
    let w' = (process_job d job.id w).1 in
    let next = again w' in
    if str_eq job.id "" then (emptied, w) else if shutdown w'.calls then (shut_down, w') else next

-- The inner loop of `workerLoop`, after a wake signal.
unfoldable pub drain : Deps → (ℕ → Bool) → ℕ → World → Drained × World
unfolding claim_next_pending process_job
drain d shutdown zero w = (no_fuel, w)
drain d shutdown (suc fuel) w =
    after_claim d shutdown (drain d shutdown fuel) (claim_next_pending w)
