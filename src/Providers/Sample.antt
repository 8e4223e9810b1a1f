-- ===== src/Providers/Sample.antt =====
-- A breaker as every provider's client has it by default, and a server that echoes.
use learn_rag.Common.{none, []}
use learn_rag.Common.Int.{pos}
use learn_rag.Result.{ok}
use learn_rag.Breaker.{Breaker, live}
use learn_rag.Breaker
use learn_rag.HttpClient.{Net}
use learn_rag.Providers.{Surroundings}

abbrev pub no_limits : Breaker.Config
no_limits = record { max_failures = pos 0; timeout = pos 0; half_open_max_calls = pos 0 }

abbrev pub breaker : Breaker
breaker = record {
  config = record { max_failures = pos 3; timeout = pos 30000000000; half_open_max_calls = pos 1 };
  state = Breaker.closed;
  failures = 0;
  opened_at = 0;
  half_open_calls = 0;
}

-- The server gives back the body of a request.
abbrev pub around : Surroundings
around = record {
  transport = record {
    refuses = λ method url. none;
    canonical = λ k. k;
    send = λ n req. ok (record { status_code = 200; body = req.body });
    ended = λ n. none;
  };
  context = λ n. live;
  clock = λ n. (n, n);
}

abbrev pub start : Net
start = record { sent = 0; looks = 0; slept = [] }
