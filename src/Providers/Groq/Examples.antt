-- ===== src/Providers/Groq/Examples.antt =====
-- A file whose language the service reports.
use learn_rag.Common.{◌≡◌, ◌≢◌, refl, Option, none, some, []}
use learn_rag.Common.Text.{codes}
use learn_rag.Result.{ok}
use learn_rag.Model.{Transcript}
use learn_rag.Breaker.{Breaker, live}
use learn_rag.Breaker
use learn_rag.HttpClient.{Net}
use learn_rag.HttpClient
use learn_rag.Providers.{with_defaults}
use learn_rag.Providers.Groq.{Transcriber, TranscribeInput, Outside, new, transcribe}
use learn_rag.Providers.Groq.Transcripts.{Transcribed, transcribe-Transcribed}
use learn_rag.Providers.Sample.{no_limits, breaker, start, around}

abbrev transcriber : Transcriber
transcriber = record { client = HttpClient.new; api_key = "k"; endpoint = "" }

abbrev outside : Outside
outside = record {
  random_hex = ok "00";
  open_file = λ file n. ok (codes "hello");
  form = λ boundary model language file content. content;
  decode = λ t. ok (record { text = t; language = some "en" });
}

abbrev input : TranscribeInput
input = record { file_path = codes "f"; language = ""; model = "" }

hello : transcribe transcriber around outside input breaker start ≡ (
  (
    some (
        some (record {
          id = "";
          tenant_id = "";
          video_id = "";
          content = codes "hello";
          language = some "en";
          model = some "whisper-large-v3";
          created_at = 0;
        })),
    none,
  ),
  breaker,
  record { sent = 1; looks = 0; slept = [] },
)
unfolding transcribe
hello = refl

made : new (record { api_key = "k"; endpoint = "" }) no_limits ≡ ok (transcriber, breaker)
unfolding new Breaker.new with_defaults
made = refl

transcribe-Transcribed_example :
    let r = (transcribe transcriber around outside input breaker start).0 in
    (r.0 ≢ none)
    × ((found : Option Transcript)
        → r ≡ (some found, none)
        → Transcribed transcriber around outside input found)
transcribe-Transcribed_example =
    transcribe-Transcribed (record { api_key = "k"; endpoint = "" }) no_limits transcriber breaker
      made around outside input breaker start
