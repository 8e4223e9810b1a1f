-- ===== src/Bucket/Bounds.antt =====
-- The token bucket's guarantees: no bucket over its capacity, keys apart from one another, and the
-- bound on what one key is allowed in a span of time.
use native.Mathlib.Nat.{zero-add}
use text.Mathlib.Text.{◌==◌}
use text.Mathlib.TextEquality.{eq_iff}
use text.Mathlib.TextPositions.{eq_refl}
use learn_rag.Common.{
  ℕ, ◌+◌, ◌-◌, ◌*◌, ◌≤◌, ◌≡◌, ◌≢◌, inl, inr, String, Bool, true, false, ◌&&◌, some, List, [], ◌∷◌,
  arith, leb, if◌then◌else◌, All, Bool-cases, Option-cases, sym, ◌∙◌,
}
use learn_rag.Common.Assoc.{lookup, lookup-insert}
use learn_rag.Bucket.{Bucket, TokenBucket, refill_bucket, bucket_of, take_token, allow, admitted}

-- No bucket holds more than the capacity.
abbrev pub IsCapped : TokenBucket → Type 0
IsCapped tb = (key : String) (b : Bucket) → lookup key tb.buckets ≡ some b → b.tokens ≤ tb.capacity

not-==_of_ne : (a b : String) → a ≢ b → (a == b) ≡ false
not-==_of_ne a b d = ground (arith, eq_iff a b)

-- What a call spends.
abbrev cost : Bool → ℕ → ℕ
cost true one = one
cost false one = 0

-- The bucket that `allow` stores, and its answer.
abbrev spend : TokenBucket → ℕ → Bucket → Bucket × Bool
spend tb now b = take_token tb (refill_bucket tb b now)

mul-sub_split : (r a b c : ℕ) → a ≤ b → b ≤ c → (b - a) * r + r * (c - b) ≡ r * (c - a)
mul-sub_split r a b c h k = let e : c - a ≡ b - a + (c - b) = omega arith in rw e (grind arith)

-- One call on a bucket: what it leaves, what it spent and what time still adds come from what was
-- there and what time adds.
spend_bound :
    (tb : TokenBucket) (b : Bucket) (now end : ℕ)
    → now ≤ end
    → let (b', allowed) = spend tb now b in
      cost allowed tb.one + (b'.tokens + tb.refill * (end - b'.last))
      ≤ b.tokens + tb.refill * (end - b.last)
unfolding take_token refill_bucket
spend_bound tb b now end h = elim (Bool-cases (leb now b.last)) [
  | inl early ↦ ground arith
  | inr late ↦ ground (arith, mul-sub_split tb.refill b.last now end)
]

spend_capped :
    (tb : TokenBucket) (b : Bucket) (now start : ℕ)
    → start ≤ now
    → b.tokens ≤ tb.capacity
    → let (b', allowed) = spend tb now b in
      (cost allowed tb.one + b'.tokens ≤ tb.capacity) × (start ≤ b'.last)
unfolding take_token refill_bucket
spend_capped tb b now start h c = ground arith

lookup-allow :
    (key k : String) (now : ℕ) (tb : TokenBucket)
    → lookup key (allow k now tb).0.buckets
      ≡ (if k == key then some (spend tb now (bucket_of k now tb)).0 else lookup key tb.buckets)
unfolding allow
lookup-allow key k now tb = lookup-insert k key _ tb.buckets

allow-IsCapped_at :
    (tb : TokenBucket) (key j : String) (now : ℕ) (b : Bucket)
    → IsCapped tb
    → (if key == j then some (spend tb now (bucket_of key now tb)).0 else lookup j tb.buckets)
      ≡ some b
    → b.tokens ≤ tb.capacity
unfolding bucket_of take_token refill_bucket
allow-IsCapped_at tb key j now b h e = elim (Option-cases (lookup key tb.buckets)) [
  | inl fresh ↦ ground (arith, h j b)
  | inr (old, found) ↦ ground (arith, h j b, h key old)
]

-- A call of `Allow` keeps every bucket within the capacity, and leaves the bucket of every other key
-- as it was.
pub allow_safe :
    (key : String) (now : ℕ) (tb : TokenBucket)
    → IsCapped tb
    → IsCapped (allow key now tb).0
      × ((j : String) → key ≢ j → lookup j (allow key now tb).0.buckets ≡ lookup j tb.buckets)
unfolding allow
allow_safe key now tb h = (
  λ j b e. allow-IsCapped_at tb key j now b h (sym (lookup-allow j key now tb) ∙ e),
  λ j d. lookup-allow j key now tb ∙ rw (not-==_of_ne key j d),
)

lookup-allow_self :
    (key : String) (now : ℕ) (tb : TokenBucket)
    → lookup key (allow key now tb).0.buckets ≡ some (spend tb now (bucket_of key now tb)).0
lookup-allow_self key now tb = lookup-allow key key now tb ∙ rw (eq_refl key)

-- The calls' times.
abbrev pub Within : ℕ → ℕ → List (String × ℕ) → Type 0
Within start end calls = All (λ c. (start ≤ c.1) × (c.1 ≤ end)) calls

bucket_of_stored :
    (k : String) (now : ℕ) (tb : TokenBucket) (b : Bucket)
    → lookup k tb.buckets ≡ some b
    → bucket_of k now tb ≡ b
unfolding bucket_of
bucket_of_stored k now tb b e = ground arith

counted_cost :
    (allowed : Bool) (n one : ℕ)
    → ((if allowed then 1 else 0) + n) * one ≡ cost allowed one + n * one
counted_cost true n one = omega arith
counted_cost false n one = omega arith

-- A call with the key `key`, and calls after it that the bucket's content pays for.
spend_then :
    (key k : String) (now end rest : ℕ) (tb : TokenBucket)
    → now ≤ end
    → (k == key) ≡ true
    → let (b, allowed) = spend tb now (bucket_of k now tb) in
      rest * tb.one ≤ b.tokens + tb.refill * (end - b.last)
      → ((if k == key && (allow k now tb).1 then 1 else 0) + rest) * tb.one
        ≤ (bucket_of k now tb).tokens + tb.refill * (end - (bucket_of k now tb).last)
unfolding allow
spend_then key k now end rest tb h same later =
    let old = bucket_of k now tb in
    rw same (
      rw (counted_cost (spend tb now old).1 rest tb.one)
        (omega (arith, spend_bound tb old now end h, later)))

admitted_stored :
    (key : String) (start end : ℕ) (calls : List (String × ℕ)) (tb : TokenBucket) (b : Bucket)
    → Within start end calls
    → lookup key tb.buckets ≡ some b
    → admitted key calls tb * tb.one ≤ b.tokens + tb.refill * (end - b.last)
unfolding admitted allow
admitted_stored key start end [] tb b h e = omega arith
admitted_stored key start end ((k, now) ∷ calls) tb b (h, hs) e = elim (Bool-cases (k == key)) [
  | inl same ↦
      let found = bucket_of_stored k now tb b (rw ((eq_iff k key).0 same) e) in
      let stored = lookup-allow key k now tb ∙ rw same in
      rw (← found) (
        spend_then key k now end _ tb h.1 same
          (admitted_stored key start end calls (allow k now tb).0 _ hs stored))
  | inr other ↦
      rw (other, zero-add)
        (admitted_stored key start end calls (allow k now tb).0 b hs
          (lookup-allow key k now tb ∙ rw other e))
]

mul-sub_mono : (r a b c : ℕ) → a ≤ b → r * (c - b) ≤ r * (c - a)
mul-sub_mono r a b c h = let e : c - b ≤ c - a = omega arith in grind arith

bucket_of_capped :
    (k : String) (now : ℕ) (tb : TokenBucket)
    → IsCapped tb
    → (bucket_of k now tb).tokens ≤ tb.capacity
unfolding bucket_of
bucket_of_capped k now tb h = elim (Option-cases (lookup k tb.buckets)) [
  | inl fresh ↦ ground arith
  | inr (b, found) ↦ ground (arith, h k b)
]

-- The first call with the key `key` since the time `start`.
first_call :
    (key k : String) (now start end rest : ℕ) (tb : TokenBucket)
    → IsCapped tb
    → (start ≤ now) × (now ≤ end)
    → (k == key) ≡ true
    → let (b, allowed) = spend tb now (bucket_of k now tb) in
      rest * tb.one ≤ b.tokens + tb.refill * (end - b.last)
      → ((if k == key && (allow k now tb).1 then 1 else 0) + rest) * tb.one
        ≤ tb.capacity + tb.refill * (end - start)
unfolding allow
first_call key k now start end rest tb h w same later =
    let old = bucket_of k now tb in
    let (b, allowed) = spend tb now old in
    let (paid, fresh) = spend_capped tb old now start w.0 (bucket_of_capped k now tb h) in
    rw same (
      rw (counted_cost allowed rest tb.one)
        (omega (arith, paid, later, mul-sub_mono tb.refill start b.last end fresh)))

-- The rate limit: whatever the order of calls for all keys, and with clock readings that need not
-- grow, the calls for one key that are allowed between the times `start` and `end` cost no more than
-- one full bucket and what is refilled in that time.
pub admitted_bound :
    (key : String) (start end : ℕ) (calls : List (String × ℕ)) (tb : TokenBucket)
    → IsCapped tb
    → Within start end calls
    → admitted key calls tb * tb.one ≤ tb.capacity + tb.refill * (end - start)
unfolding admitted allow
admitted_bound key start end [] tb h w = omega arith
admitted_bound key start end ((k, now) ∷ calls) tb h (w, ws) = elim (Bool-cases (k == key)) [
  | inl same ↦ first_call key k now start end _ tb h w same (
      admitted_stored key start end calls (allow k now tb).0 _ ws
        (lookup-allow key k now tb ∙ rw same))
  | inr other ↦
      rw (other, zero-add)
        (admitted_bound key start end calls (allow k now tb).0 (allow_safe k now tb h).0 ws)
]
