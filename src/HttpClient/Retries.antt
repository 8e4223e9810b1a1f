-- ===== src/HttpClient/Retries.antt =====
-- The retries of the HTTP client end.
use learn_rag.Common.{
  ℕ, zero, suc, ◌+◌, ◌≤◌, ◌<◌, ◌≡◌, ◌≢◌, ◌⊎◌, inl, inr, refl, ap, sym, ◌∙◌, Bool-cases, Bool, arith,
  String, Bool, true, false, ◌&&◌, ◌||◌, Option, none, some, List, [], ◌∷◌, ◌++◌, All,
  if◌then◌else◌, leb, ltb,
}
use mathlib.Core.List.{append-nil, append_assoc}
use learn_rag.Common.Int.{ℤ, pos, negsuc, pos_part, leb_ℤ}
use learn_rag.Common.Text.{Text}
use learn_rag.Errors.{Err, wrap}
use learn_rag.Result.{Result, ok, err, Result-cases}
use learn_rag.HttpClient.{
  HttpClient, Transport, Net, Answer, Request, Response, next_wait, retryable_status, look, sleep,
  woken, may_retry, after_failure, after_send, send, retry_loop, build_request, body_bytes,
  body_type, with_body, named_type, rounds, do_with_retry, do_with_retry_reader, decoded, no_fuel,
  decode_body, read_answer, do_json,
}

-- Requests that come of `doWithRetry`'s arguments.
abbrev pub IsBuilt :
    Transport
    → String
    → String
    → List (String × List String)
    → Text
    → Option String
    → Request
    → Type 0
IsBuilt t method url headers body content_type req =
    build_request t method url headers body content_type ≡ ok req

-- The requests of `doWithRetryReader`: the body is one that `new_body` gave.
abbrev pub IsRead :
    Transport
    → String
    → String
    → List (String × List String)
    → String
    → (ℕ → Result (Option Text))
    → Request
    → Type 0
IsRead t method url headers content_type new_body req =
    (attempt : ℕ) × (with_body
        (λ body. build_request t method url headers body (named_type content_type))
        (new_body attempt)
      ≡ ok req)

-- The waits are within the bound.
abbrev pub WithinWait : HttpClient → ℕ → Type 0
WithinWait c wait = wait ≤ c.max_wait

-- What a call of at most n further rounds does from s: it answers, it sends n requests at most, its waits are within the bound,
-- and a response that it answers with is the server's to the last request, and is one that is worth a retry only if it sent all n.
pub record Bounded (Q : Request → Type 0) (c : HttpClient) (t : Transport) (n : ℕ) (s : Net)
    (a : Answer) : Type 0 where
  pub answers : a.0 ≢ none
  pub few : a.1.sent ≤ s.sent + n
  pub waits : List ℕ
  pub slept : a.1.slept ≡ s.slept ++ waits
  pub short : All (WithinWait c) waits
  pub last :
      (resp : Response)
      → a.0 ≡ some (ok resp)
      → (earlier : ℕ) × (req : Request) × (a.1.sent ≡ suc earlier)
        × Q req
        × (t.send earlier req ≡ ok resp)
        × ((retryable_status resp.status_code ≡ false) ⊎ (a.1.sent ≡ s.sent + n))

module _ (Q : Request → Type 0) (c : HttpClient) (t : Transport) where
  -- An error ends a call.
  stops :
      (n : ℕ) (s s' : Net) (e : Err) (waits : List ℕ)
      → s'.sent ≤ s.sent + n
      → s'.slept ≡ s.slept ++ waits
      → All (WithinWait c) waits
      → Bounded Q c t n s (some (err e), s')
  stops n s s' e waits few slept short = record {
    answers = λ h. cc;
    few = few;
    waits = waits;
    slept = slept;
    short = short;
    last = λ resp h. absurd (clash h);
  }
    where
      clash : {r : Response} → some (err e) ≡ some (ok r) → ⊥
      clash h = cc

  -- What follows a request and a wait.
  later :
      (n wait : ℕ) (s s' : Net) (a : Answer)
      → Bounded Q c t n s' a
      → s'.sent ≡ suc s.sent
      → s'.slept ≡ s.slept ++ wait ∷ []
      → WithinWait c wait
      → Bounded Q c t (suc n) s a
  later n wait s s' a rest sent slept within = record {
    answers = rest.answers;
    few = let few = rest.few in omega arith;
    waits = wait ∷ rest.waits;
    slept =
        rest.slept ∙ ap (λ x. x ++ rest.waits) slept ∙ append_assoc s.slept (wait ∷ []) rest.waits;
    short = (within, rest.short);
    last = λ resp h.
        let (earlier, req, number, good, answer, reason) = rest.last resp h in
        (earlier, req, number, good, answer, all_sent reason);
  }
    where
      all_sent : {P : Type 0} → P ⊎ (a.1.sent ≡ s'.sent + n) → P ⊎ (a.1.sent ≡ s.sent + suc n)
      all_sent (inl p) = inl p
      all_sent (inr q) = inr (omega arith)

  may_retry-more :
      (max : ℤ) (attempt n : ℕ)
      → attempt + n ≡ suc (pos_part max)
      → leb_ℤ (pos attempt) max ≡ true
      → 1 ≤ n
  may_retry-more (pos m) attempt n sum h = ground arith
  may_retry-more (negsuc m) attempt n sum h = ground arith

  may_retry-last :
      (max : ℤ) (attempt n : ℕ)
      → 1 ≤ attempt
      → attempt + n ≡ suc (pos_part max)
      → leb_ℤ (pos attempt) max ≡ false
      → n ≡ 0
  may_retry-last (pos m) attempt n one sum h = ground arith
  may_retry-last (negsuc m) attempt n one sum h = ground arith

  next_wait-within : (wait : ℕ) → WithinWait c (next_wait c wait)
  unfolding next_wait
  next_wait-within wait = ground arith

  module _ (n wait : ℕ) (within : WithinWait c wait) (again : ℕ → Net → Answer)
      (rest : 1 ≤ n
        → (wait : ℕ) (s : Net) → WithinWait c wait
        → Bounded Q c t n s (again wait s)) where
    woken-Bounded :
        (s s' : Net) (ended : Option Err)
        → 1 ≤ n
        → s'.sent ≡ suc s.sent
        → s'.slept ≡ s.slept ++ wait ∷ []
        → Bounded Q c t (suc n) s (woken c wait again (ended, s'))
    woken-Bounded s s' (some e) more sent slept =
        stops (suc n) s s' e (wait ∷ []) (omega arith) slept (within, tt)
    woken-Bounded s s' none more sent slept =
        later n wait s s' (again (next_wait c wait) s')
          (rest more (next_wait c wait) s' (next_wait-within wait)) sent slept within

    module _ (attempt : ℕ) (one : 1 ≤ attempt) (sum : attempt + n ≡ rounds c) where
      after_failure-Bounded :
          (s s' : Net) (e : Err) (ended : Option Err)
          → s'.sent ≡ suc s.sent
          → s'.slept ≡ s.slept
          → Bounded Q c t (suc n) s (after_failure c t attempt wait again e (ended, s'))
      after_failure-Bounded s s' e (some e') sent slept =
          stops (suc n) s s' e' [] (omega arith) (slept ∙ sym (append-nil s.slept)) tt
      after_failure-Bounded s s' e none sent slept = by_test (may_retry c attempt) refl
        where
          by_test :
              (b : Bool)
              → may_retry c attempt ≡ b
              → Bounded Q c t
                  (suc n)
                  s
                  (if b then woken c wait again (sleep t wait s') else (some (err e), s'))
          by_test true h =
              woken-Bounded s (sleep t wait s').1 (sleep t wait s').0
                (may_retry-more c.max_retries attempt n sum h) sent (ap (λ x. x ++ wait ∷ []) slept)
          by_test false h =
              stops (suc n) s s' e [] (omega arith) (slept ∙ sym (append-nil s.slept)) tt

      after_send-Bounded :
          (s : Net) (req : Request) (r : Result Response)
          → Q req
          → t.send s.sent req ≡ r
          → Bounded Q c t
              (suc n)
              s
              (after_send c t attempt wait again r (record s { sent = suc s.sent }))
      after_send-Bounded s req (err e) good h =
          after_failure-Bounded s (look t (record s { sent = suc s.sent })).1 e
            (look t (record s { sent = suc s.sent })).0 refl refl
      after_send-Bounded s req (ok resp) good h =
          by_tests (retryable_status resp.status_code) (may_retry c attempt) refl refl
        where
          gives_up :
              (retryable_status resp.status_code ≡ false) ⊎ (n ≡ 0)
              → Bounded Q c t (suc n) s (some (ok resp), record s { sent = suc s.sent })
          gives_up reason = record {
            answers = λ g. cc;
            few = omega arith;
            waits = [];
            slept = sym (append-nil s.slept);
            short = tt;
            last = λ r g. (
              s.sent,
              req,
              refl,
              good,
              h ∙ ground arith,
              elim reason [ inl no_retry ↦ inl (ground arith) | inr spent ↦ inr (omega arith) ],
            );
          }

          by_tests :
              (b d : Bool)
              → retryable_status resp.status_code ≡ b
              → may_retry c attempt ≡ d
              → Bounded Q c t (suc n) s (
                  if b && d
                  then woken c wait again (sleep t wait (record s { sent = suc s.sent }))
                  else (some (ok resp), record s { sent = suc s.sent }))
          by_tests true true g more =
              woken-Bounded s (sleep t wait (record s { sent = suc s.sent })).1
                (sleep t wait (record s { sent = suc s.sent })).0
                (may_retry-more c.max_retries attempt n sum more) refl refl
          by_tests true false g last =
              gives_up (inr (may_retry-last c.max_retries attempt n one sum last))
          by_tests false d g h = gives_up (inl g)

      send-Bounded :
          (r : Result Request) (s : Net)
          → ((req : Request) → r ≡ ok req → Q req)
          → Bounded Q c t (suc n) s (send c t attempt wait again r s)
      send-Bounded (err e) s all =
          stops (suc n) s s e [] (omega arith) (sym (append-nil s.slept)) tt
      send-Bounded (ok req) s all = after_send-Bounded s req (t.send s.sent req) (all req refl) refl

  retry_loop-Bounded :
      (prepare : ℕ → Result Request) (fuel attempt wait : ℕ) (s : Net)
      → ((attempt : ℕ) (req : Request) → prepare attempt ≡ ok req → Q req)
      → 1 ≤ fuel
      → attempt + fuel ≡ rounds c
      → WithinWait c wait
      → Bounded Q c t fuel s (retry_loop c t prepare fuel attempt wait s)
  unfolding retry_loop
  retry_loop-Bounded prepare zero attempt wait s all one sum within = absurd (omega arith)
  retry_loop-Bounded prepare (suc fuel) attempt wait s all one sum within =
      send-Bounded fuel wait within (retry_loop c t prepare fuel (suc attempt))
        (λ more wait s within.
          retry_loop-Bounded prepare fuel (suc attempt) wait s all more (omega arith) within)
        (suc attempt) (omega arith) (omega arith) (prepare (suc attempt)) s (all (suc attempt))

-- A client that waits no longer at first than at most: doWithRetry and doWithRetryReader answer, after one request more
-- than the retries at most (one, if that number is negative), with waits within the bound; a response that they answer with is the
-- server's to the last request, which is one built from the arguments (with a body that newBody gave), and a retryable one only
-- after all requests have been sent.
pub do_with_retry-Bounded :
    (c : HttpClient) (t : Transport) (method url : String) (headers : List (String × List String))
    (body : Option Text) (content_type : String) (new_body : ℕ → Result (Option Text)) (s : Net)
    → c.initial_wait ≤ c.max_wait
    → Bounded
        (IsBuilt t method url headers (body_bytes body) (body_type body content_type))
        c
        t
        (rounds c)
        s
        (do_with_retry c t method url headers body content_type s)
      × Bounded
          (IsRead t method url headers content_type new_body)
          c
          t
          (rounds c)
          s
          (do_with_retry_reader c t method url headers content_type new_body s)
unfolding do_with_retry do_with_retry_reader
do_with_retry-Bounded c t method url headers body content_type new_body s within = (
  retry_loop-Bounded (IsBuilt t method url headers (body_bytes body) (body_type body content_type))
      c t (λ _. build_request t method url headers (body_bytes body) (body_type body content_type))
      (rounds c) 0 c.initial_wait s (λ attempt req h. h) (omega arith) (omega arith) within,
  retry_loop-Bounded (IsRead t method url headers content_type new_body) c t
      (λ attempt.
        with_body (λ body. build_request t method url headers body (named_type content_type))
          (new_body attempt))
      (rounds c) 0 c.initial_wait s (λ attempt req h. (attempt, h)) (omega arith) (omega arith)
      within,
)

decode_body-fuel :
    {A : Type 0} (out : Option (Text → Result A)) (body : Text) → decode_body out body ≢ no_fuel
decode_body-fuel none body h = cc
decode_body-fuel (some decode) body h = elim (Result-cases (decode body)) [
  | inl (a, e) ↦ ground arith
  | inr (x, e) ↦ ground arith
]

read_answer-success :
    {A : Type 0} (Q : Request → Type 0) (c : HttpClient) (t : Transport)
    (out : Option (Text → Result A)) (s : Net) (a : Answer)
    → Bounded Q c t (rounds c) s a
    → ((read_answer out a).0 ≢ no_fuel)
      × ((x : Option A)
          → (read_answer out a).0 ≡ decoded x
          → (n : ℕ) × (req : Request) × (resp : Response) × Q req
            × (t.send n req ≡ ok resp)
            × (200 ≤ resp.status_code)
            × (resp.status_code < 300)
            × (decode_body out resp.body ≡ decoded x))
read_answer-success Q c t out s (none, s') bounded = absurd (bounded.answers refl)
read_answer-success Q c t out s (some (err e), s') bounded = (λ h. cc, λ x h. cc)
read_answer-success Q c t out s (some (ok resp), s') bounded =
    let (n, req, number, good_req, answer, reason) = bounded.last resp refl in
    let other = decode_body-fuel out resp.body in
    let test = ltb resp.status_code 200 || leb 300 resp.status_code in
    elim (Bool-cases test) [
      | inl bad ↦ (λ h. ground arith, λ x h. ground arith)
      | inr good ↦ (
        λ h. other (ground arith),
        λ x h. (n, req, resp, good_req, answer, ground arith, ground arith, ground arith),
      )
    ]

-- The request of `DoJSON`.
abbrev pub json_request :
    Transport
    → String
    → String
    → List (String × List String)
    → Option (Result Text)
    → Result Request
json_request t method url headers none = build_request t method url headers [] none
json_request t method url headers (some (ok b)) =
    build_request t method url headers b (some "application/json")
json_request t method url headers (some (err e)) = err (wrap "httpclient: marshal request" e)

-- A client that waits no longer at first than at most: DoJSON ends, and it reports success only on a response of the
-- server to the request that it was to send, with a status from 200 to 299, whose body it has decoded if that was asked for.
pub do_json-success :
    {A : Type 0} (c : HttpClient) (t : Transport) (method url : String)
    (headers : List (String × List String)) (body : Option (Result Text))
    (out : Option (Text → Result A)) (s : Net)
    → c.initial_wait ≤ c.max_wait
    → ((do_json c t method url headers body out s).0 ≢ no_fuel)
      × ((a : Option A)
          → (do_json c t method url headers body out s).0 ≡ decoded a
          → (n : ℕ) × (req : Request) × (resp : Response) × (json_request t method url headers body
              ≡ ok req)
            × (t.send n req ≡ ok resp)
            × (200 ≤ resp.status_code)
            × (resp.status_code < 300)
            × (decode_body out resp.body ≡ decoded a))
unfolding do_json
do_json-success c t method url headers none out s within =
    read_answer-success (IsBuilt t method url headers [] none) c t out s
      (do_with_retry c t method url headers none "application/json" s)
      (do_with_retry-Bounded c t method url headers none "application/json" (λ _. ok none) s
        within).0
do_json-success c t method url headers (some (ok b)) out s within =
    read_answer-success (IsBuilt t method url headers b (some "application/json")) c t out s
      (do_with_retry c t method url headers (some b) "application/json" s)
      (do_with_retry-Bounded c t method url headers (some b) "application/json" (λ _. ok none) s
        within).0
do_json-success c t method url headers (some (err e)) out s within = (λ h. cc, λ a h. cc)
