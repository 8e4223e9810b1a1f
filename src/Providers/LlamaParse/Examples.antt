-- ===== src/Providers/LlamaParse/Examples.antt =====
-- A document whose job is pending at the first poll.
use learn_rag.Common.{◌==◌, ◌≡◌, ◌≢◌, String, refl, none, some, [], ◌∷◌, if◌then◌else◌}
use learn_rag.Common.Int.{pos}
use learn_rag.Common.Text.{Text, codes}
use learn_rag.Result.{ok}
use learn_rag.Breaker.{Breaker, live}
use learn_rag.Breaker
use learn_rag.HttpClient.{Net}
use learn_rag.HttpClient
use learn_rag.Providers.{Surroundings, with_defaults}
use learn_rag.Providers.LlamaParse.{Config, DocumentParser, Outside, new, parse}
use learn_rag.Providers.LlamaParse.Polling.{IsParsed, parse-IsParsed}
use learn_rag.Providers.Sample.{no_limits, breaker, start}

abbrev config : Config
config = record { api_key = "k"; poll_interval = pos 0; max_polls = pos 0 }

abbrev parser : DocumentParser
parser = record {
  client = HttpClient.new;
  api_key = "k";
  poll_every = pos 2000000000;
  max_polls = pos 60;
}

-- The n-th response has the body n.
abbrev around : Surroundings
around = record {
  transport = record {
    refuses = λ method url. none;
    canonical = λ k. k;
    send = λ n req. ok (record { status_code = 200; body = n ∷ [] });
    ended = λ n. none;
  };
  context = λ n. live;
  clock = λ n. (n, n);
}

abbrev status : Text → String
status [] = ""
status (n ∷ _) = if n == 2 then "SUCCESS" else "PENDING"

abbrev outside : Outside
outside = record {
  read_file = λ file. ok (codes "x");
  form = λ name content. ok (content, "multipart/form-data");
  base = λ file. file;
  decode_id = λ t. ok "j";
  decode_status = λ t. ok (status t);
  read_all = λ t. ok t;
  wait_ended = λ n. none;
}

second_poll :
    parse parser around outside (codes "f") breaker start
    ≡ ((some (3 ∷ []), none), breaker, record { sent = 4; looks = 0; slept = [] })
unfolding parse
second_poll = refl

made : new config no_limits ≡ ok (parser, breaker)
unfolding new Breaker.new with_defaults
made = refl

parse-IsParsed_example :
    let r = (parse parser around outside (codes "f") breaker start).0 in
    (r.0 ≢ none)
    × ((text : Text) → r ≡ (some text, none) → IsParsed parser around outside (codes "f") text)
parse-IsParsed_example =
    parse-IsParsed config no_limits parser breaker made around outside (codes "f") breaker start
