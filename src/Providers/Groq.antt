-- ===== src/Providers/Groq.antt =====
-- internal/providers/groq/groq.go. The file system, the multipart writer, the random source and the JSON library
-- are parameters. The status in the text of an error is left out.
pub mod Transcripts
mod Examples
use text.Mathlib.Text.{◌==◌ as str_eq}
use Prim.Native.String.{◌++◌ as join}
use learn_rag.Common.{
  ℕ, String, Bool, Option, none, some, List, [], ◌∷◌, ◌==◌, length, if◌then◌else◌,
}
use learn_rag.Common.Text.{Text}
use learn_rag.Errors.{Err, plain, wrap}
use learn_rag.Result.{Result, ok, err}
use learn_rag.Model.{Transcript}
use learn_rag.Breaker.{Breaker, Outcome, execute}
use learn_rag.Breaker
use learn_rag.HttpClient.{HttpClient, Net, Response, Answer, do_with_retry_reader}
use learn_rag.HttpClient
use learn_rag.Providers.{Surroundings, with_defaults, Step, to_outcome, is_failure}

pub record Config : Type 0 where
  pub api_key : String
  pub endpoint : String

-- `Transcriber`; its breaker is state.
pub record Transcriber : Type 0 where
  pub client : HttpClient
  pub api_key : String
  pub endpoint : String

-- `New`.
unfoldable pub new : Config → Breaker.Config → Result (Transcriber × Breaker)
new cfg cb =
    if str_eq cfg.api_key ""
    then err (plain "groq: API key is required")
    else ok (
      record { client = HttpClient.new; api_key = cfg.api_key; endpoint = cfg.endpoint },
      Breaker.new (with_defaults cb),
    )

-- `ports.TranscribeInput`.
pub record TranscribeInput : Type 0 where
  pub file_path : Text
  pub language : String
  pub model : String

-- `transcriptionResponse`.
pub record TranscriptionResponse : Type 0 where
  pub text : Text
  pub language : Option String

-- What a call uses: the hexadecimal digits of 16 random bytes, the content of a file at each attempt to open it, the multipart form
-- of a boundary, a model, a language unless it is empty, a file and its content, and the decoded response.
pub record Outside : Type 0 where
  pub random_hex : Result String
  pub open_file : Text → ℕ → Result Text
  pub form : String → String → Option String → Text → Text → Text
  pub decode : Text → Result TranscriptionResponse

abbrev default_model : String
default_model = "whisper-large-v3"

abbrev pub model_of : TranscribeInput → String
model_of input = if str_eq input.model "" then default_model else input.model

-- `newBoundary`.
abbrev pub new_boundary : Outside → Result String
new_boundary o = elim o.random_hex [ err e ↦ err e | ok hex ↦ ok (join "----ragGroqBoundary" hex) ]

abbrev hint : String → Option String
hint language = if str_eq language "" then none else some language

-- `buildMultipart`, at each attempt.
abbrev pub build_multipart : Outside → TranscribeInput → String → ℕ → Result (Option Text)
build_multipart o input boundary attempt = elim (o.open_file input.file_path attempt) [
  | err e ↦ err (wrap "groq: open media file" e)
  | ok content ↦
      ok (some (o.form boundary (model_of input) (hint input.language) input.file_path content))
]

abbrev pub url_of : Transcriber → String
url_of t =
    if str_eq t.endpoint ""
    then "https://api.groq.com/openai/v1/audio/transcriptions"
    else t.endpoint

abbrev pub headers_of : Transcriber → List (String × List String)
headers_of t = ("Authorization", join "Bearer " t.api_key ∷ []) ∷ []

abbrev pub content_type_of : String → String
content_type_of boundary = join "multipart/form-data; boundary=" boundary

-- The language of the response, or the one that was asked for.
abbrev language_of : TranscribeInput → Option String → Option String
language_of input (some language) = some language
language_of input none = hint input.language

-- The transcript of a response; the fields that the code does not set have the zero values.
abbrev pub new_transcript : TranscribeInput → TranscriptionResponse → Transcript
new_transcript input out = record {
  id = "";
  tenant_id = "";
  video_id = "";
  content = out.text;
  language = language_of input out.language;
  model = some (model_of input);
  created_at = 0;
}

-- What is made of the response; the transcript is a pointer.
abbrev pub transcript_of : Outside → TranscribeInput → Response → Result (Option Transcript)
transcript_of o input resp =
    if is_failure resp.status_code
    then err (plain "groq: unexpected status")
    else elim (o.decode resp.body) [
      | err e ↦ err (wrap "groq: decode response" e)
      | ok out ↦
          if length out.text == 0
          then err (plain "groq: empty transcript in response")
          else ok (some (new_transcript input out))
    ]

abbrev pub answered : Outside → TranscribeInput → Answer → Step (Option Transcript)
answered o input (none, s) = (none, s)
answered o input (some (err e), s) = (some (err (wrap "groq: transcribe request" e)), s)
answered o input (some (ok resp), s) = (some (transcript_of o input resp), s)

-- The function that `Transcribe` runs through the breaker.
unfoldable pub transcribe_once :
    Transcriber → Surroundings → Outside → TranscribeInput → Net → Step (Option Transcript)
unfolding do_with_retry_reader
transcribe_once t w o input s = elim (new_boundary o) [
  | err e ↦ (some (err (wrap "groq: generate boundary" e)), s)
  | ok boundary ↦ answered o input (
      do_with_retry_reader t.client w.transport "POST" (url_of t) (headers_of t)
        (content_type_of boundary) (build_multipart o input boundary) s)
]

-- `Transcribe`, which uses the breaker once; the pointer is nil beside an error.
unfoldable pub transcribe :
    Transcriber
    → Surroundings
    → Outside
    → TranscribeInput
    → Breaker
    → Net
    → Outcome (Option (Option Transcript)) × Breaker × Net
unfolding execute transcribe_once
transcribe t w o input b s =
    execute (w.context 0) (some none) (w.clock 0).0 (w.clock 0).1
      (λ s. to_outcome none (transcribe_once t w o input s)) b s
