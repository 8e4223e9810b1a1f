-- ===== src/Providers/LlamaParse/Polling.antt =====
-- A text that Parse gives is the result of a job that the service has reported as successful.
use mathlib.Core.Path.{subst}
use text.Mathlib.Text.{◌==◌ as str_eq}
use text.Mathlib.TextEquality.{eq_iff}
use learn_rag.Common.{
  ℕ, zero, suc, ◌≤◌, ◌≡◌, ◌≢◌, inl, inr, refl, ap, ◌∙◌, Bool-cases, arith, String, true, false,
  Option, none, some, [], ◌||◌,
}
use learn_rag.Common.Int.{pos_part}
use learn_rag.Common.Text.{Text}
use learn_rag.Errors.{Err, plain, wrap}
use learn_rag.Result.{ok, err, Result-cases}
use learn_rag.Breaker.{Breaker}
use learn_rag.Breaker
use learn_rag.HttpClient.{
  Net, Response, Answer, JsonOutcome, decoded, failed, response_error, no_fuel, do_with_retry,
  build_request, named_type,
}
use learn_rag.HttpClient.Retries.{json_request, do_json-success}
use learn_rag.Providers.{Surroundings, Step, is_failure, to_outcome, and_next}
use learn_rag.Providers.Answers.{
  Served, Gives, refuses, and_next-Gives, result-Gives, map-Gives, do_with_retry-Served,
  to_outcome-Gives, execute-gives,
}
use learn_rag.Providers.LlamaParse.{
  Config, DocumentParser, Outside, new, upload_url, poll_url, result_url, headers_of, id_of,
  uploaded, upload, by_status, polled, poll, wait_loop, wait_until_done, text_of, fetched,
  fetch_result, parse_once, parse,
}

-- The service took the file's form and answered with the id.
pub record Uploaded (p : DocumentParser) (w : Surroundings) (o : Outside) (file : Text)
    (id : String) : Type 0 where
  pub content : Text
  pub body : Text
  pub content_type : String
  pub resp : Response
  pub read : o.read_file file ≡ ok content
  pub formed : o.form (o.base file) content ≡ ok (body, content_type)
  pub served :
      Served w
        (build_request w.transport "POST" upload_url (headers_of p) body (named_type content_type))
        resp
  pub decoded_id : o.decode_id resp.body ≡ ok id
  pub not_empty : str_eq id "" ≡ false

-- The service reported the job as successful.
pub record Succeeded (p : DocumentParser) (w : Surroundings) (o : Outside) (id : String)
    : Type 0 where
  pub resp : Response
  pub served : Served w (json_request w.transport "GET" (poll_url id) (headers_of p) none) resp
  pub decoded_status : o.decode_status resp.body ≡ ok "SUCCESS"

-- The service gave the text as the job's result.
pub record Fetched (p : DocumentParser) (w : Surroundings) (o : Outside) (id : String) (text : Text)
    : Type 0 where
  pub resp : Response
  pub served :
      Served w (build_request w.transport "GET" (result_url id) (headers_of p) [] none) resp
  pub content : o.read_all resp.body ≡ ok text

-- A text that was parsed.
abbrev pub IsParsed : DocumentParser → Surroundings → Outside → Text → Text → Type 0
IsParsed p w o file text =
    (id : String) × Uploaded p w o file id × Succeeded p w o id × Fetched p w o id text

module _ (p : DocumentParser) (w : Surroundings) (o : Outside)
    (within : p.client.initial_wait ≤ p.client.max_wait) where
  id_of-ok :
      (resp : Response) (id : String)
      → id_of o resp ≡ ok id
      → (is_failure resp.status_code ≡ false)
        × (o.decode_id resp.body ≡ ok id)
        × (str_eq id "" ≡ false)
  id_of-ok resp id h = elim (Result-cases (o.decode_id resp.body)) [
    | inl (found, g) ↦ ground (arith)
    | inr (e, g) ↦ absurd (ground arith)
  ]

  text_of-ok :
      (resp : Response) (text : Text)
      → text_of o resp ≡ ok text
      → (is_failure resp.status_code ≡ false) × (o.read_all resp.body ≡ ok text)
  text_of-ok resp text h = elim (Result-cases (o.read_all resp.body)) [
    | inl (found, g) ↦ ground arith
    | inr (e, g) ↦ absurd (ground arith)
  ]

  fetched-Gives :
      (id : String) (a : Answer)
      → a.0 ≢ none
      → ((resp : Response)
          → a.0 ≡ some (ok resp)
          → is_failure resp.status_code ≡ false
          → Served w (build_request w.transport "GET" (result_url id) (headers_of p) [] none) resp)
      → Gives (Fetched p w o id) (fetched o a)
  fetched-Gives id (none, s) ends served = absurd (ends refl)
  fetched-Gives id (some (err e), s) ends served = refuses (wrap "llamaparse: fetch result" e) s
  fetched-Gives id (some (ok resp), s) ends served = result-Gives (text_of o resp) s (λ text h.
      let (good, content) = text_of-ok resp text h in
      record { resp = resp; served = served resp refl good; content = content })

  fetch_result-Gives : (id : String) (s : Net) → Gives (Fetched p w o id) (fetch_result p w o id s)
  unfolding fetch_result
  fetch_result-Gives id s =
      let (ends, served) =
        do_with_retry-Served w p.client "GET" (result_url id) (headers_of p) none "" s within in
      fetched-Gives id
        (do_with_retry p.client w.transport "GET" (result_url id) (headers_of p) none "" s) ends
        served

  uploaded-Gives :
      (file content body : Text) (content_type : String) (a : Answer)
      → o.read_file file ≡ ok content
      → o.form (o.base file) content ≡ ok (body, content_type)
      → a.0 ≢ none
      → ((resp : Response)
          → a.0 ≡ some (ok resp)
          → is_failure resp.status_code ≡ false
          → Served w
              (build_request w.transport "POST" upload_url
                (headers_of p)
                body
                (named_type content_type))
              resp)
      → Gives (Uploaded p w o file) (uploaded o a)
  uploaded-Gives file content body content_type (none, s) read formed ends served =
      absurd (ends refl)
  uploaded-Gives file content body content_type (some (err e), s) read formed ends served =
      refuses (wrap "llamaparse: upload" e) s
  uploaded-Gives file content body content_type (some (ok resp), s) read formed ends served =
      result-Gives (id_of o resp) s (λ id h.
        let (good, found, not_empty) = id_of-ok resp id h in
        record {
          content = content;
          body = body;
          content_type = content_type;
          resp = resp;
          read = read;
          formed = formed;
          served = served resp refl good;
          decoded_id = found;
          not_empty = not_empty;
        })

  upload-Gives : (file : Text) (s : Net) → Gives (Uploaded p w o file) (upload p w o file s)
  unfolding upload
  upload-Gives file s = elim (Result-cases (o.read_file file)) [
    | inr (e, read) ↦ rw (upload, read) (refuses (wrap "llamaparse: read file" e) s)
    | inl (content, read) ↦ elim (Result-cases (o.form (o.base file) content)) [
      | inr (e, formed) ↦ rw (upload, read, formed) (refuses e s)
      | inl ((body, content_type), formed) ↦
          let (ends, served) =
            do_with_retry-Served w p.client "POST" upload_url (headers_of p) (some body)
              content_type s within in
          rw (upload, read, formed)
            (uploaded-Gives file content body content_type
              (do_with_retry p.client w.transport "POST" upload_url (headers_of p) (some body)
                content_type s)
              read formed ends served)
    ]
  ]

  poll-Succeeded :
      (id : String) (s : Net)
      → ((poll p w o id s).0 ≢ no_fuel)
        × ((status : String)
            → (poll p w o id s).0 ≡ decoded (some status)
            → str_eq status "SUCCESS" ≡ true
            → Succeeded p w o id)
  poll-Succeeded id s =
      let (ends, success) =
        do_json-success p.client w.transport "GET" (poll_url id) (headers_of p) none
          (some o.decode_status) s within in
      (
        ends,
        λ status h same.
            let (n, req, resp, asked, answer, low, high, content) = success (some status) h in
            record {
              resp = resp;
              served = record {
                number = n;
                req = req;
                asked = asked;
                answer = answer;
                success = (low, high);
              };
              decoded_status = elim (Result-cases (o.decode_status resp.body)) [
                | inl (found, g) ↦
                    subst (λ x. o.decode_status resp.body ≡ ok x) ((eq_iff status "SUCCESS").0 same)
                      (g ∙ ap (λ x. ok x) (ground arith))
                | inr (e, g) ↦ absurd (ground arith)
              ];
            },
      )

  by_status-Gives :
      (id : String) (again : Net → Step Unit) (status : String) (s : Net)
      → Gives (λ _. Succeeded p w o id) (again s)
      → (str_eq status "SUCCESS" ≡ true → Succeeded p w o id)
      → Gives (λ _. Succeeded p w o id) (by_status again status s)
  by_status-Gives id again status s rest success = elim (Bool-cases (str_eq status "SUCCESS")) [
    | inl same ↦ rw same (result-Gives (ok tt) s (λ _ _. success same))
    | inr other ↦ elim (Bool-cases (str_eq status "ERROR" || str_eq status "CANCELED")) [
      | inl over ↦ rw (other, over) (refuses (plain "llamaparse: job ended") s)
      | inr goes_on ↦ rw (other, goes_on) rest
    ]
  ]

  polled-Gives :
      (id : String) (again : Net → Step Unit)
      → ((s : Net) → Gives (λ _. Succeeded p w o id) (again s))
      → (r : JsonOutcome String × Net) → (r.0 ≢ no_fuel)
      → ((status : String)
          → r.0 ≡ decoded (some status)
          → str_eq status "SUCCESS" ≡ true
          → Succeeded p w o id)
      → Gives (λ _. Succeeded p w o id) (polled again r)
  polled-Gives id again rest (decoded none, s) ends success = rest s
  polled-Gives id again rest (decoded (some status), s) ends success =
      by_status-Gives id again status s (rest s) (success status refl)
  polled-Gives id again rest (failed e, s) ends success = refuses (wrap "llamaparse: poll" e) s
  polled-Gives id again rest (response_error code, s) ends success =
      refuses (wrap "llamaparse: poll" (plain "httpclient: unexpected status")) s
  polled-Gives id again rest (no_fuel, s) ends success = absurd (ends refl)

  wait_loop-Gives :
      (id : String) (left i : ℕ) (s : Net)
      → Gives (λ _. Succeeded p w o id) (wait_loop p w o id left i s)
  unfolding wait_loop
  wait_loop-Gives id zero i s = refuses (plain "llamaparse: poll timeout for job") s
  wait_loop-Gives id (suc left) i s =
      by_wait (o.wait_ended i) (λ s. wait_loop-Gives id left (suc i) s)
    where
      by_wait :
          (ended : Option Err)
          → ((s : Net) → Gives (λ _. Succeeded p w o id) (wait_loop p w o id left (suc i) s))
          → Gives
              (λ _. Succeeded p w o id)
              (elim ended [
                | some e ↦ (some (err e), s)
                | none ↦ polled (wait_loop p w o id left (suc i)) (poll p w o id s)
              ])
      by_wait (some e) rest = refuses e s
      by_wait none rest =
          let (ends, success) = poll-Succeeded id s in
          polled-Gives id (wait_loop p w o id left (suc i)) rest (poll p w o id s) ends success

  parse_once-Gives : (file : Text) (s : Net) → Gives (IsParsed p w o file) (parse_once p w o file s)
  unfolding parse_once wait_until_done
  parse_once-Gives file s =
      and_next-Gives (upload p w o file s)
        (λ id s. and_next (wait_until_done p w o id s) (λ _ s. fetch_result p w o id s))
        (upload-Gives file s)
        (λ id s up.
          and_next-Gives (wait_until_done p w o id s) (λ _ s. fetch_result p w o id s)
            (wait_loop-Gives id (pos_part p.max_polls) 0 s)
            (λ _ s done. map-Gives (λ text found. (id, up, done, found)) (fetch_result-Gives id s)))

new-fits :
    (cfg : Config) (cb : Breaker.Config) (p : DocumentParser) (b : Breaker)
    → new cfg cb ≡ ok (p, b)
    → p.client.initial_wait ≤ p.client.max_wait
unfolding new
new-fits cfg cb p b h = ground arith

-- Parse on a parser that New gave, whatever the breaker's state, the files, the server and the contexts: it ends, and if it gives
-- a text, the service took a form with the file's content and answered with an id that is not empty, answered a poll of that
-- id's job with "SUCCESS", and gave the text as the job's result, each with a status from 200 to 299.
pub parse-IsParsed :
    (cfg : Config) (cb : Breaker.Config) (p : DocumentParser) (b : Breaker)
    → new cfg cb ≡ ok (p, b)
    → (w : Surroundings) (o : Outside) (file : Text) (now : Breaker) (s : Net)
    → let r = (parse p w o file now s).0 in
      (r.0 ≢ none) × ((text : Text) → r ≡ (some text, none) → IsParsed p w o file text)
unfolding parse
parse-IsParsed cfg cb p b h w o file now s =
    let within = new-fits cfg cb p b h in
    let once =
      to_outcome-Gives [] (parse_once p w o file s) (parse_once-Gives p w o within file s) in
    execute-gives (w.context 0) [] (w.clock 0).0 (w.clock 0).1
      (λ s. to_outcome [] (parse_once p w o file s)) now s once
