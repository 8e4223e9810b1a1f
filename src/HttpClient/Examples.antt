-- ===== src/HttpClient/Examples.antt =====
-- A server that is overloaded twice, then answers.
use learn_rag.Common.{◌==◌, ◌≡◌, if◌then◌else◌, refl, none, some, [], ◌∷◌, arith}
use learn_rag.Common.Text.{Text, codes}
use learn_rag.Result.{ok}
use learn_rag.HttpClient.{
  Transport, Net, decoded, new, rounds, do_with_retry, do_with_retry_reader, do_json,
}
use learn_rag.HttpClient.Retries.{Bounded, IsBuilt, IsRead, do_with_retry-Bounded}

abbrev server : Transport
server = record {
  refuses = λ method url. none;
  canonical = λ k. k;
  send = λ n req. ok (record { status_code = if n == 2 then 200 else 503; body = codes "hi" });
  ended = λ n. none;
}

abbrev start : Net
start = record { sent = 0; looks = 0; slept = [] }

third_time : do_json {A = Text} new server "POST" "u" [] none (some (λ t. ok t)) start ≡ (
  decoded (some (codes "hi")),
  record { sent = 3; looks = 2; slept = 200000000 ∷ 400000000 ∷ [] },
)
unfolding do_json
third_time = refl

do_with_retry-Bounded_example :
    Bounded
      (IsBuilt server "POST" "u" [] [] none)
      new
      server
      (rounds new)
      start
      (do_with_retry new server "POST" "u" [] none "application/json" start)
    × Bounded
        (IsRead server "POST" "u" [] "application/json" (λ n. ok (some [])))
        new
        server
        (rounds new)
        start
        (do_with_retry_reader new server "POST" "u" [] "application/json" (λ n. ok (some [])) start)
do_with_retry-Bounded_example =
    do_with_retry-Bounded new server "POST" "u" [] none "application/json" (λ n. ok (some [])) start
      (omega arith)
