-- ===== src/Providers/LlamaParse.antt =====
-- internal/providers/llamaparse/llamaparse.go. The file system, the multipart writer and the JSON library are
-- parameters. The numbers and ids in the texts of errors are left out.
pub mod Polling
mod Examples
use text.Mathlib.Text.{◌==◌ as str_eq}
use Prim.Native.String.{◌++◌ as join}
use learn_rag.Common.{
  ℕ, zero, suc, String, Bool, ◌||◌, Option, none, some, List, [], ◌∷◌, if◌then◌else◌,
}
use learn_rag.Common.Int.{ℤ, pos, pos_part}
use learn_rag.Common.Text.{Text}
use learn_rag.Errors.{Err, plain, wrap}
use learn_rag.Result.{Result, ok, err}
use learn_rag.Breaker.{Breaker, Outcome, execute}
use learn_rag.Breaker
use learn_rag.HttpClient.{
  HttpClient, Net, Response, Answer, JsonOutcome, decoded, failed, response_error, no_fuel, do_json,
  do_with_retry,
}
use learn_rag.HttpClient
use learn_rag.Providers.{
  Surroundings, with_defaults, or_default, Step, and_next, to_outcome, is_failure,
}

pub record Config : Type 0 where
  pub api_key : String
  pub poll_interval : ℤ
  pub max_polls : ℤ

-- `DocumentParser`; its breaker is state.
pub record DocumentParser : Type 0 where
  pub client : HttpClient
  pub api_key : String
  pub poll_every : ℤ
  pub max_polls : ℤ

-- `New`.
unfoldable pub new : Config → Breaker.Config → Result (DocumentParser × Breaker)
new cfg cb =
    if str_eq cfg.api_key ""
    then err (plain "llamaparse: API key is required")
    else ok (
      record {
        client = HttpClient.new;
        api_key = cfg.api_key;
        poll_every = or_default cfg.poll_interval (pos 2000000000);
        max_polls = or_default cfg.max_polls (pos 60);
      },
      Breaker.new (with_defaults cb),
    )

-- What a call uses: the file, its form with a content type, the decoded responses, and how the wait before each poll ends.
pub record Outside : Type 0 where
  pub read_file : Text → Result Text
  pub form : Text → Text → Result (Text × String)
  pub base : Text → Text
  pub decode_id : Text → Result String
  pub decode_status : Text → Result String
  pub read_all : Text → Result Text
  pub wait_ended : ℕ → Option Err

abbrev upload_url : String
upload_url = "https://api.llamacloud.com/v1/parsing/upload"

abbrev pub poll_url : String → String
poll_url id = join "https://api.llamacloud.com/v1/parsing/job/" id

abbrev pub result_url : String → String
result_url id = join (poll_url id) "/result/raw/markdown"

abbrev pub headers_of : DocumentParser → List (String × List String)
headers_of p = ("Authorization", join "Bearer " p.api_key ∷ []) ∷ []

-- The job id of the answer to an upload.
abbrev pub id_of : Outside → Response → Result String
id_of o resp =
    if is_failure resp.status_code
    then err (plain "llamaparse: upload status")
    else elim (o.decode_id resp.body) [
      | err e ↦ err (wrap "llamaparse: decode upload response" e)
      | ok id ↦
          if str_eq id "" then err (plain "llamaparse: upload returned empty job id") else ok id
    ]

abbrev pub uploaded : Outside → Answer → Step String
uploaded o (none, s) = (none, s)
uploaded o (some (err e), s) = (some (err (wrap "llamaparse: upload" e)), s)
uploaded o (some (ok resp), s) = (some (id_of o resp), s)

-- `upload`.
unfoldable pub upload : DocumentParser → Surroundings → Outside → Text → Net → Step String
unfolding do_with_retry
upload p w o file s = elim (o.read_file file) [
  | err e ↦ (some (err (wrap "llamaparse: read file" e)), s)
  | ok content ↦ elim (o.form (o.base file) content) [
    | err e ↦ (some (err e), s)
    | ok (body, content_type) ↦ uploaded o (
        do_with_retry p.client w.transport "POST" upload_url (headers_of p) (some body) content_type
          s)
  ]
]

-- The `switch` on the status.
abbrev pub by_status : (Net → Step Unit) → String → Net → Step Unit
by_status again status s =
    if str_eq status "SUCCESS"
    then (some (ok tt), s)
    else if str_eq status "ERROR" || str_eq status "CANCELED"
    then (some (err (plain "llamaparse: job ended")), s)
    else again s

abbrev pub polled : (Net → Step Unit) → JsonOutcome String × Net → Step Unit
polled again (decoded none, s) = by_status again "" s
polled again (decoded (some status), s) = by_status again status s
polled again (failed e, s) = (some (err (wrap "llamaparse: poll" e)), s)
polled again (response_error code, s) =
    (some (err (wrap "llamaparse: poll" (plain "httpclient: unexpected status"))), s)
polled again (no_fuel, s) = (none, s)

abbrev pub poll : DocumentParser → Surroundings → Outside → String → Net → JsonOutcome String × Net
poll p w o id s =
    do_json p.client w.transport "GET" (poll_url id) (headers_of p) none (some o.decode_status) s

-- The loop of `waitUntilDone`: `left` polls may still be made, and the next is the i-th.
unfoldable pub wait_loop :
    DocumentParser → Surroundings → Outside → String → ℕ → ℕ → Net → Step Unit
unfolding do_json
wait_loop p w o id zero i s = (some (err (plain "llamaparse: poll timeout for job")), s)
wait_loop p w o id (suc left) i s = elim (o.wait_ended i) [
  | some e ↦ (some (err e), s)
  | none ↦ polled (wait_loop p w o id left (suc i)) (poll p w o id s)
]

-- `waitUntilDone`.
unfoldable pub wait_until_done : DocumentParser → Surroundings → Outside → String → Net → Step Unit
unfolding wait_loop
wait_until_done p w o id s = wait_loop p w o id (pos_part p.max_polls) 0 s

-- The text of the answer with the result.
abbrev pub text_of : Outside → Response → Result Text
text_of o resp =
    if is_failure resp.status_code
    then err (plain "llamaparse: result status")
    else elim (o.read_all resp.body) [
      | err e ↦ err (wrap "llamaparse: read result" e)
      | ok text ↦ ok text
    ]

abbrev pub fetched : Outside → Answer → Step Text
fetched o (none, s) = (none, s)
fetched o (some (err e), s) = (some (err (wrap "llamaparse: fetch result" e)), s)
fetched o (some (ok resp), s) = (some (text_of o resp), s)

-- `fetchResult`.
unfoldable pub fetch_result : DocumentParser → Surroundings → Outside → String → Net → Step Text
unfolding do_with_retry
fetch_result p w o id s =
    fetched o (do_with_retry p.client w.transport "GET" (result_url id) (headers_of p) none "" s)

-- The function that `Parse` runs through the breaker.
unfoldable pub parse_once : DocumentParser → Surroundings → Outside → Text → Net → Step Text
unfolding upload wait_until_done fetch_result
parse_once p w o file s =
    and_next (upload p w o file s)
      (λ id s. and_next (wait_until_done p w o id s) (λ _ s. fetch_result p w o id s))

-- `Parse`, which uses the breaker once.
unfoldable pub parse :
    DocumentParser
    → Surroundings
    → Outside
    → Text
    → Breaker
    → Net
    → Outcome (Option Text) × Breaker × Net
unfolding execute parse_once
parse p w o file b s =
    execute (w.context 0) (some []) (w.clock 0).0 (w.clock 0).1
      (λ s. to_outcome [] (parse_once p w o file s)) b s
