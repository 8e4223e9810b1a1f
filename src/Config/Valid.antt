-- ===== src/Config/Valid.antt =====
-- What `Load` of internal/config/config.go and `concurrency` of internal/worker/worker.go promise.
use mathlib.Core.Path.{subst}
use learn_rag.Common.{ℕ, zero, suc, ◌≤◌, ◌≡◌, refl, arith, All}
use learn_rag.Common.Int.{ℤ, pos, ◌<ℤ◌, ◌≤ℤ◌}
use learn_rag.Result.{Result, ok, err, ◌>>=◌}
use learn_rag.Config.{Environment, Config, validate, read_env, load}
use learn_rag.Worker.Queue.{concurrency, listen_max_reconnect_delay, next_backoff, backoffs}

bind_ok :
    {A B : Type 0} (r : Result A) (f : A → Result B) {b : B}
    → (r >>= f) ≡ ok b
    → (a : A) × (r ≡ ok a) × (f a ≡ ok b)
bind_ok (ok a) f h = (a, refl, h)
bind_ok (err e) f h = cc

-- The numbers that have to be positive.
pub record IsValid (c : Config) : Type 0 where
  pub workers : pos 0 <ℤ c.worker_concurrency
  pub batch : pos 0 <ℤ c.embedding_batch_size
  pub lifetime : pos 0 <ℤ c.upload_url_ttl_minutes
  pub upload : pos 0 <ℤ c.max_upload_bytes
  pub failures : pos 0 <ℤ c.cb_max_failures
  pub timeout : pos 0 <ℤ c.cb_timeout

validate-IsValid : (c : Config) (u : Unit {0}) → validate c ≡ ok u → IsValid c
unfolding validate
validate-IsValid c u h = record {
  workers = ground arith;
  batch = ground arith;
  lifetime = ground arith;
  upload = ground arith;
  failures = ground arith;
  timeout = ground arith;
}

-- A configuration that Load gives has a positive number of workers, batch size, lifetime of upload URLs,
-- size limit, number of failures and timeout of the breaker.
pub load-IsValid : (env : Environment) (c : Config) → load env ≡ ok c → IsValid c
unfolding load
load-IsValid env c h =
    let (cfg, _, rest) = bind_ok (read_env env) (λ cfg. validate cfg >>= λ _. ok cfg) h in
    let (u, valid, same) = bind_ok (validate cfg) (λ _. ok cfg) rest in
    subst IsValid (ground arith) (validate-IsValid cfg u valid)

-- Whatever number is configured, there are one to five workers, and as many as configured if that is one to five.
pub concurrency-bounds :
    (n : ℤ)
    → (pos 1 ≤ℤ concurrency n)
      × (concurrency n ≤ℤ pos 5)
      × (pos 1 ≤ℤ n → n ≤ℤ pos 5 → concurrency n ≡ n)
unfolding concurrency
concurrency-bounds n = ground arith

-- The waits of the listener before its reconnections, if the first is at most thirty seconds, are never more
-- than thirty seconds.
pub backoffs-bounds :
    (backoff n : ℕ)
    → backoff ≤ listen_max_reconnect_delay
    → All (λ wait. wait ≤ listen_max_reconnect_delay) (backoffs backoff n)
unfolding backoffs
backoffs-bounds backoff zero h = tt
backoffs-bounds backoff (suc n) h = (h, backoffs-bounds (next_backoff backoff) n (ground arith))
