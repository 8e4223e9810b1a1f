-- ===== src/Bucket/Examples.antt =====
-- The admin quota of the router: five tokens a minute, so a token is 60 * 10^9 units.
use learn_rag.Common.{ℕ, ◌+◌, ◌-◌, ◌*◌, ◌≤◌, ◌≡◌, ◌≢◌, refl, String, List, [], ◌∷◌, arith}
use learn_rag.Common.Assoc.{lookup, insert}
use learn_rag.Bucket.{
  TokenBucket, new_token_bucket, allow, admitted, bucket_of, take_token, refill_bucket,
}
use learn_rag.Bucket.Bounds.{IsCapped, allow_safe, admitted_bound}

abbrev admin : TokenBucket
admin = new_token_bucket 300_000_000_000 5 60_000_000_000

admin-IsCapped : IsCapped admin
unfolding new_token_bucket lookup
admin-IsCapped key b e = cc

-- Six calls at once, one of another key, and one twelve seconds later.
abbrev burst : List (String × ℕ)
burst =
    ("k", 0)
    ∷ ("k", 0)
    ∷ ("k", 0)
    ∷ ("j", 1)
    ∷ ("k", 1)
    ∷ ("k", 2)
    ∷ ("k", 3)
    ∷ ("k", 12_000_000_003)
    ∷ []

burst-admitted : admitted "k" burst admin ≡ 6
unfolding admitted allow new_token_bucket bucket_of take_token refill_bucket lookup insert
burst-admitted = refl

allow_safe_example :
    IsCapped (allow "k" 7 admin).0
    × ((j : String) → "k" ≢ j → lookup j (allow "k" 7 admin).0.buckets ≡ lookup j admin.buckets)
allow_safe_example = allow_safe "k" 7 admin admin-IsCapped

admitted_bound_example :
    admitted "k" burst admin * admin.one ≤ admin.capacity + admin.refill * (12_000_000_003 - 0)
admitted_bound_example =
    admitted_bound "k" 0 12_000_000_003 burst admin admin-IsCapped (omega arith)
