-- ===== src/Bucket.antt =====
-- internal/ratelimit/token_bucket.go, in whole numbers: tokens are counted in units of which `one`
-- make a token, `refill` is in units per nanosecond, and times are nanoseconds. For the router's
-- quota of q tokens a minute `one` is 60 * 10^9 and `refill` is q, so nothing is rounded; the
-- rounding of Go's float64 is not modelled. `tb.now()` is an argument.
pub mod Bounds
mod Examples
use learn_rag.Common.{
  ℕ, ◌+◌, ◌-◌, ◌*◌, String, Bool, true, false, ◌&&◌, Option, none, some, List, [], ◌∷◌, leb, ltb,
  if◌then◌else◌,
}
use text.Mathlib.Text.{◌==◌}
use learn_rag.Common.Assoc.{lookup, insert}

pub record Bucket : Type 0 where
  pub tokens : ℕ
  pub last : ℕ

pub record TokenBucket : Type 0 where
  pub capacity : ℕ
  pub refill : ℕ
  pub one : ℕ
  pub buckets : List (String × Bucket)

-- `NewTokenBucket`.
unfoldable pub new_token_bucket : ℕ → ℕ → ℕ → TokenBucket
new_token_bucket capacity per_ns one = record {
  capacity = capacity;
  refill = per_ns;
  one = one;
  buckets = [];
}

-- `refillBucket`.
unfoldable pub refill_bucket : TokenBucket → Bucket → ℕ → Bucket
refill_bucket tb b now =
    if leb now b.last
    then b
    else let tokens = b.tokens + (now - b.last) * tb.refill in
      record { tokens = if ltb tb.capacity tokens then tb.capacity else tokens; last = now }

-- The bucket that `Allow` works on: the key's, or a fresh, full one.
unfoldable pub bucket_of : String → ℕ → TokenBucket → Bucket
bucket_of key now tb = elim (lookup key tb.buckets) [
  | some b ↦ b
  | none ↦ record { tokens = tb.capacity; last = now }
]

-- The end of `Allow`, on the refilled bucket.
unfoldable pub take_token : TokenBucket → Bucket → Bucket × Bool
take_token tb b =
    if leb tb.one b.tokens then (record b { tokens = b.tokens - tb.one }, true) else (b, false)

-- `Allow`. The map holds pointers: the bucket that is refilled and spent is the one stored.
unfoldable pub allow : String → ℕ → TokenBucket → TokenBucket × Bool
allow key now tb =
    let (b, allowed) = take_token tb (refill_bucket tb (bucket_of key now tb) now) in
    (record tb { buckets = insert key b tb.buckets }, allowed)

-- `Reset`.
unfoldable pub reset : TokenBucket → TokenBucket
reset tb = record tb { buckets = [] }

-- How many of the calls of `Allow` with this key are answered `true`.
unfoldable pub admitted : String → List (String × ℕ) → TokenBucket → ℕ
admitted key [] tb = 0
admitted key ((k, now) ∷ calls) tb =
    let (tb', allowed) = allow k now tb in
    (if k == key && allowed then 1 else 0) + admitted key calls tb'
