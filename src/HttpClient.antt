-- ===== src/HttpClient.antt =====
-- internal/providers/httpclient/client.go. The transport, the context and the JSON library are
-- parameters. Durations are numbers of nanoseconds.
pub mod Retries
mod Examples
use text.Mathlib.Text.{◌==◌ as str_eq}
use learn_rag.Common.{
  ℕ, zero, suc, ◌+◌, ◌*◌, String, Bool, true, false, not, ◌&&◌, ◌||◌, Option, none, some, List, [],
  ◌∷◌, ◌++◌, map, if◌then◌else◌, ◌==◌, leb, ltb,
}
use learn_rag.Common.Int.{ℤ, pos, pos_part, leb_ℤ}
use learn_rag.Common.Text.{Text}
use learn_rag.Errors.{Err, plain, wrap}
use learn_rag.Result.{Result, ok, err}

-- `retryableStatus`.
unfoldable pub retryable_status : ℕ → Bool
retryable_status code = code == 429 || code == 500 || code == 502 || code == 503 || code == 504

-- `HTTPClient`, without the timeout of the transport.
pub record HttpClient : Type 0 where
  pub max_retries : ℤ
  pub initial_wait : ℕ
  pub max_wait : ℕ

-- `New` and `WithMaxRetries`.
abbrev pub new : HttpClient
new = record { max_retries = pos 2; initial_wait = 200000000; max_wait = 4000000000 }

abbrev pub with_max_retries : ℤ → HttpClient → HttpClient
with_max_retries n c = record c { max_retries = n }

abbrev pub Headers : Type 0
Headers = List (String × String)

pub record Request : Type 0 where
  pub method : String
  pub url : String
  pub headers : Headers
  pub body : Text

pub record Response : Type 0 where
  pub status_code : ℕ
  pub body : Text

-- What the client uses: whether a request can be built, how header names are written, what the server answers to each
-- request, by the number of those before, and when the context has ended, by the number of times it was
-- looked at.
pub record Transport : Type 0 where
  pub refuses : String → String → Option Err
  pub canonical : String → String
  pub send : ℕ → Request → Result Response
  pub ended : ℕ → Option Err

-- The requests sent, the looks at the context and the waits so far.
pub record Net : Type 0 where
  pub sent : ℕ
  pub looks : ℕ
  pub slept : List ℕ

-- What a call answers: none if the fuel does not suffice.
abbrev pub Answer : Type 0
Answer = Option (Result Response) × Net

-- `nextWait`.
unfoldable pub next_wait : HttpClient → ℕ → ℕ
next_wait c wait = if ltb c.max_wait (wait * 2) then c.max_wait else wait * 2

-- `ctx.Err()`.
abbrev pub look : Transport → Net → Option Err × Net
look t s = (t.ended s.looks, record s { looks = suc s.looks })

-- `sleep`, which the context may end.
abbrev pub sleep : Transport → ℕ → Net → Option Err × Net
sleep t d s = look t (record s { slept = s.slept ++ d ∷ [] })

-- After a wait: the next round, with a longer wait, unless the context has ended.
abbrev pub woken : HttpClient → ℕ → (ℕ → Net → Answer) → Option Err × Net → Answer
woken c wait again (some e, s) = (some (err e), s)
woken c wait again (none, s) = again (next_wait c wait) s

-- `attempt <= c.maxRetries`.
abbrev pub may_retry : HttpClient → ℕ → Bool
may_retry c attempt = leb_ℤ (pos attempt) c.max_retries

abbrev pub after_failure :
    HttpClient → Transport → ℕ → ℕ → (ℕ → Net → Answer) → Err → Option Err × Net → Answer
after_failure c t attempt wait again e (some ended, s) = (some (err ended), s)
after_failure c t attempt wait again e (none, s) =
    if may_retry c attempt then woken c wait again (sleep t wait s) else (some (err e), s)

-- What follows `c.client.Do(req)`.
abbrev pub after_send :
    HttpClient → Transport → ℕ → ℕ → (ℕ → Net → Answer) → Result Response → Net → Answer
after_send c t attempt wait again (err e) s = after_failure c t attempt wait again e (look t s)
after_send c t attempt wait again (ok resp) s =
    if retryable_status resp.status_code && may_retry c attempt
    then woken c wait again (sleep t wait s)
    else (some (ok resp), s)

abbrev pub send :
    HttpClient → Transport → ℕ → ℕ → (ℕ → Net → Answer) → Result Request → Net → Answer
send c t attempt wait again (err e) s = (some (err e), s)
send c t attempt wait again (ok req) s =
    after_send c t attempt wait again (t.send s.sent req) (record s { sent = suc s.sent })

-- The loop that `doWithRetry` and `doWithRetryReader` have in common; `prepare` builds the request of an attempt.
unfoldable pub retry_loop : HttpClient → Transport → (ℕ → Result Request) → ℕ → ℕ → ℕ → Net → Answer
unfolding next_wait retryable_status
retry_loop c t prepare zero attempt wait s = (none, s)
retry_loop c t prepare (suc fuel) attempt wait s =
    send c t (suc attempt) wait (retry_loop c t prepare fuel (suc attempt)) (prepare (suc attempt))
      s

-- The number of rounds at most.
abbrev pub rounds : HttpClient → ℕ
rounds c = suc (pos_part c.max_retries)

-- `req.Header.Add` for the values of each header.
abbrev pub add_values : Transport → String → List String → Headers
add_values t k [] = []
add_values t k (v ∷ vs) = (t.canonical k, v) ∷ add_values t k vs

abbrev pub add_headers : Transport → List (String × List String) → Headers
add_headers t [] = []
add_headers t ((k, vs) ∷ headers) = add_values t k vs ++ add_headers t headers

-- `req.Header.Set`.
abbrev pub set_header : String → String → Headers → Headers
set_header k v [] = (k, v) ∷ []
set_header k v ((j, u) ∷ headers) =
    let later = set_header k v headers in if str_eq j k then later else (j, u) ∷ later

-- `http.NewRequestWithContext` and the headers.
unfoldable pub build_request :
    Transport
    → String
    → String
    → List (String × List String)
    → Text
    → Option String
    → Result Request
build_request t method url headers body content_type =
    let added = add_headers t headers in
    elim (t.refuses method url) [
      | some e ↦ err (wrap "httpclient: build request" e)
      | none ↦ ok (record {
        method = method;
        url = url;
        headers = elim content_type [
          | none ↦ added
          | some content_type ↦ set_header "Content-Type" content_type added
        ];
        body = body;
      })
    ]

-- `contentType` unless it is empty.
abbrev pub named_type : String → Option String
named_type content_type = if str_eq content_type "" then none else some content_type

-- The body of `doWithRetry`, which may be nil.
abbrev pub body_bytes : Option Text → Text
body_bytes none = []
body_bytes (some b) = b

abbrev pub body_type : Option Text → String → Option String
body_type none content_type = none
body_type (some _) content_type = named_type content_type

-- `doWithRetry`, which is also `Do`.
unfoldable pub do_with_retry :
    HttpClient
    → Transport
    → String
    → String
    → List (String × List String)
    → Option Text
    → String
    → Net
    → Answer
unfolding retry_loop build_request
do_with_retry c t method url headers body content_type s =
    let req = build_request t method url headers (body_bytes body) (body_type body content_type) in
    retry_loop c t (λ _. req) (rounds c) 0 c.initial_wait s

-- A body that `newBody` gave, which may be nil, put into a request.
abbrev pub with_body : (Text → Result Request) → Result (Option Text) → Result Request
with_body build (err e) = err e
with_body build (ok none) = err (plain "httpclient: body provider returned nil body")
with_body build (ok (some b)) = build b

-- `doWithRetryReader`, which is also `DoStream`; `new_body` gives the body of each attempt.
unfoldable pub do_with_retry_reader :
    HttpClient
    → Transport
    → String
    → String
    → List (String × List String)
    → String
    → (ℕ → Result (Option Text))
    → Net
    → Answer
unfolding retry_loop build_request
do_with_retry_reader c t method url headers content_type new_body s =
    retry_loop c t
      (λ attempt.
        with_body (λ body. build_request t method url headers body (named_type content_type))
          (new_body attempt))
      (rounds c) 0 c.initial_wait s

-- The outcome of `DoJSON`: nil with what was decoded, an error, a `ResponseError`, or no fuel.
pub data JsonOutcome (A : Type 0) : Type 0 where
  decoded : Option A → JsonOutcome A
  failed : Err → JsonOutcome A
  response_error : ℕ → JsonOutcome A
  no_fuel : JsonOutcome A

module _ {A : Type 0} where
  -- `json.NewDecoder(resp.Body).Decode(out)`, unless `out` is nil.
  abbrev pub decode_body : Option (Text → Result A) → Text → JsonOutcome A
  decode_body none body = decoded none
  decode_body (some decode) body = elim (decode body) [
    | ok a ↦ decoded (some a)
    | err e ↦ failed (wrap "httpclient: decode response" e)
  ]

  abbrev pub read_answer : Option (Text → Result A) → Answer → JsonOutcome A × Net
  read_answer out (none, s) = (no_fuel, s)
  read_answer out (some (err e), s) = (failed e, s)
  read_answer out (some (ok resp), s) = (
    if ltb resp.status_code 200 || leb 300 resp.status_code
        then response_error resp.status_code
        else decode_body out resp.body,
    s,
  )

  -- `DoJSON`; the body is what `json.Marshal` makes of it, if there is one.
  unfoldable pub do_json :
      HttpClient
      → Transport
      → String
      → String
      → List (String × List String)
      → Option (Result Text)
      → Option (Text → Result A)
      → Net
      → JsonOutcome A × Net
  unfolding do_with_retry
  do_json c t method url headers none out s =
      read_answer out (do_with_retry c t method url headers none "application/json" s)
  do_json c t method url headers (some (ok b)) out s =
      read_answer out (do_with_retry c t method url headers (some b) "application/json" s)
  do_json c t method url headers (some (err e)) out s =
      (failed (wrap "httpclient: marshal request" e), s)
