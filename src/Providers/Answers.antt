-- ===== src/Providers/Answers.antt =====
-- What the answers of the providers' clients come from.
use learn_rag.Common.{
  ℕ, ◌≤◌, ◌<◌, ◌≡◌, ◌≢◌, ◌⊎◌, inl, inr, refl, sym, ap, ◌∙◌, arith, String, false, Option, none,
  some, List,
}
use learn_rag.Common.Text.{Text}
use learn_rag.Errors.{Err}
use learn_rag.Result.{Result, ok, err}
use learn_rag.Breaker.{Breaker, Context, Outcome, background, live, cancelled, execute}
use learn_rag.HttpClient.{
  HttpClient, Net, Request, Response, do_with_retry, do_with_retry_reader, with_body, named_type,
  build_request, body_bytes, body_type,
}
use learn_rag.HttpClient.Retries.{do_with_retry-Bounded}
use learn_rag.Providers.{Surroundings, Step, and_next, to_outcome, is_failure}

-- The response is the server's to a request that was built, with a status from 200 to 299.
pub record Served (w : Surroundings) (built : Result Request) (resp : Response) : Type 0 where
  pub number : ℕ
  pub req : Request
  pub asked : built ≡ ok req
  pub answer : w.transport.send number req ≡ ok resp
  pub success : (200 ≤ resp.status_code) × (resp.status_code < 300)

-- A step ends, and what it gives satisfies P.
pub record Gives {A : Type 0} (P : A → Type 0) (m : Step A) : Type 0 where
  pub ends : m.0 ≢ none
  pub gives : (a : A) → m.0 ≡ some (ok a) → P a

pub refuses : {A : Type 0} {P : A → Type 0} (e : Err) (s : Net) → Gives P (some (err e), s)
refuses e s = record { ends = λ h. cc; gives = λ a h. absurd cc }

pub and_next-Gives :
    {A B : Type 0} {P : A → Type 0} {Q : B → Type 0} (m : Step A) (next : A → Net → Step B)
    → Gives P m
    → ((a : A) (s : Net) → P a → Gives Q (next a s))
    → Gives Q (and_next m next)
and_next-Gives (none, s) next first later = absurd (first.ends refl)
and_next-Gives (some (err e), s) next first later = refuses e s
and_next-Gives (some (ok a), s) next first later = later a s (first.gives a refl)

pub map-Gives :
    {A : Type 0} {P Q : A → Type 0} {m : Step A} → ((a : A) → P a → Q a) → Gives P m → Gives Q m
map-Gives all g = record { ends = g.ends; gives = λ a h. all a (g.gives a h) }

-- A step that ends with a result of some other kind.
pub result-Gives :
    {A : Type 0} {P : A → Type 0} (r : Result A) (s : Net)
    → ((a : A) → r ≡ ok a → P a)
    → Gives P (some r, s)
result-Gives r s all = record { ends = λ h. cc; gives = λ a h. all a cc }

-- A response to `Do` that is no failure was served.
pub do_with_retry-Served :
    (w : Surroundings) (c : HttpClient) (method url : String)
    (headers : List (String × List String)) (body : Option Text) (content_type : String) (s : Net)
    → c.initial_wait ≤ c.max_wait
    → let a = do_with_retry c w.transport method url headers body content_type s in
      (a.0 ≢ none)
      × ((resp : Response)
          → a.0 ≡ some (ok resp)
          → is_failure resp.status_code ≡ false
          → Served w
              (build_request w.transport method url headers
                (body_bytes body)
                (body_type body content_type))
              resp)
do_with_retry-Served w c method url headers body content_type s within =
    let bounded =
      (do_with_retry-Bounded c w.transport method url headers body content_type (λ _. ok none) s
        within).0 in
    (
      bounded.answers,
      λ resp h good.
          let (n, req, number, asked, answer, reason) = bounded.last resp h in
          record {
            number = n;
            req = req;
            asked = asked;
            answer = answer;
            success = (ground arith, ground arith);
          },
    )

-- The same of `DoStream`.
pub do_with_retry_reader-Served :
    (w : Surroundings) (c : HttpClient) (method url : String)
    (headers : List (String × List String)) (content_type : String)
    (new_body : ℕ → Result (Option Text)) (s : Net)
    → c.initial_wait ≤ c.max_wait
    → let a = do_with_retry_reader c w.transport method url headers content_type new_body s in
      (a.0 ≢ none)
      × ((resp : Response)
          → a.0 ≡ some (ok resp)
          → is_failure resp.status_code ≡ false
          → (attempt : ℕ) × Served w
              (with_body
                (λ body.
                  build_request w.transport method url headers body (named_type content_type))
                (new_body attempt))
              resp)
do_with_retry_reader-Served w c method url headers content_type new_body s within =
    let bounded =
      (do_with_retry-Bounded c w.transport method url headers none content_type new_body s
        within).1 in
    (
      bounded.answers,
      λ resp h good.
          let (n, req, number, (attempt, asked), answer, reason) = bounded.last resp h in
          (
            attempt,
            record {
              number = n;
              req = req;
              asked = asked;
              answer = answer;
              success = (ground arith, ground arith);
            },
          ),
    )

-- A step as a pair of Go has the value of the step, or the zero value beside an error.
pub to_outcome-Gives :
    {A : Type 0} {P : A → Type 0} (z : A) (m : Step A)
    → Gives P m
    → ((to_outcome z m).0.0 ≢ none) × ((a : A) → (to_outcome z m).0 ≡ (some a, none) → P a)
to_outcome-Gives z (none, s) m = absurd (m.ends refl)
to_outcome-Gives z (some (err e), s) m = (λ h. cc, λ a h. absurd cc)
to_outcome-Gives z (some (ok a), s) m = (λ h. cc, λ b h. m.gives b cc)

-- `Execute` gives what `fn` gave, or the zero value with an error.
execute-cases :
    {A S : Type 0} (ctx : Context) (z : A) (now later : ℕ) (fn : S → (Outcome A) × S) (b : Breaker)
    (s : S)
    → let r = (execute ctx z now later fn b s).0 in (r ≡ (fn s).0) ⊎ ((r.0 ≡ z) × (r.1 ≢ none))
unfolding execute
execute-cases background z now later fn b s = ground arith
execute-cases live z now later fn b s = ground arith
execute-cases (cancelled e) z now later fn b s = ground arith

-- What holds of the outcome that `fn` gives holds of that of `Execute`.
pub execute-gives :
    {A S : Type 0} {P : A → Type 0} (ctx : Context) (z : A) (now later : ℕ)
    (fn : S → (Outcome (Option A)) × S) (b : Breaker) (s : S)
    → (((fn s).0.0 ≢ none) × ((a : A) → (fn s).0 ≡ (some a, none) → P a))
    → let r = (execute ctx (some z) now later fn b s).0 in
      (r.0 ≢ none) × ((a : A) → r ≡ (some a, none) → P a)
execute-gives {A = A} ctx z now later fn b s one =
    elim (execute-cases ctx (some z) now later fn b s) [
      | inl same ↦ (λ h. one.0 (sym (ap (λ r. r.0) same) ∙ h), λ a h. one.1 a (sym same ∙ h))
      | inr (zero_value, error) ↦
          (λ h. some-none (sym zero_value ∙ h), λ a h. absurd (error (ap (λ r. r.1) h)))
    ]
  where
    some-none : {v : A} → some v ≢ none
    some-none h = cc
