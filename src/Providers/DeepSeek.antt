-- ===== src/Providers/DeepSeek.antt =====
-- internal/providers/deepseek/deepseek.go. The JSON library is a parameter.
pub mod Choices
mod Examples
use text.Mathlib.Text.{◌==◌ as str_eq}
use Prim.Native.String.{◌++◌ as join}
use learn_rag.Common.{String, Option, none, some, List, [], ◌∷◌, if◌then◌else◌}
use learn_rag.Common.Int.{pos}
use learn_rag.Common.Text.{Text}
use learn_rag.Errors.{plain, wrap}
use learn_rag.Result.{Result, ok, err}
use learn_rag.Breaker.{Breaker, Outcome, execute}
use learn_rag.Breaker
use learn_rag.HttpClient.{
  HttpClient, Net, JsonOutcome, decoded, failed, response_error, no_fuel, do_json, with_max_retries,
}
use learn_rag.HttpClient
use learn_rag.Providers.{Surroundings, with_defaults, Step, to_outcome}

pub record Config : Type 0 where
  pub api_key : String
  pub endpoint : String

-- `LLM`; its breaker is state.
pub record Llm : Type 0 where
  pub client : HttpClient
  pub api_key : String
  pub endpoint : String

-- `New`.
unfoldable pub new : Config → Breaker.Config → Result (Llm × Breaker)
new cfg cb =
    if str_eq cfg.api_key ""
    then err (plain "deepseek: API key is required")
    else ok (
      record {
        client = with_max_retries (pos 2) HttpClient.new;
        api_key = cfg.api_key;
        endpoint = cfg.endpoint;
      },
      Breaker.new (with_defaults cb),
    )

-- `chatMessage`.
pub record ChatMessage : Type 0 where
  pub role : String
  pub content : Text

-- `chatRequest`.
pub record ChatRequest : Type 0 where
  pub model : String
  pub messages : List ChatMessage

-- The JSON library, on `chatRequest` and on `chatResponse`, which has the contents of the choices.
pub record Json : Type 0 where
  pub marshal : ChatRequest → Result Text
  pub decode : Text → Result (List Text)

abbrev pub chat_request : Text → Text → ChatRequest
chat_request system_prompt user_content = record {
  model = "deepseek-chat";
  messages =
      record { role = "system"; content = system_prompt }
      ∷ record { role = "user"; content = user_content }
      ∷ [];
}

abbrev pub url_of : Llm → String
url_of l = if str_eq l.endpoint "" then "https://api.deepseek.com/chat/completions" else l.endpoint

abbrev pub headers_of : Llm → List (String × List String)
headers_of l = ("Authorization", join "Bearer " l.api_key ∷ []) ∷ []

-- The content of the first choice.
abbrev pub first_choice : List Text → Result Text
first_choice [] = err (plain "deepseek: empty choices in response")
first_choice (content ∷ _) = ok content

abbrev pub answered : JsonOutcome (List Text) × Net → Step Text
answered (decoded none, s) = (some (first_choice []), s)
answered (decoded (some choices), s) = (some (first_choice choices), s)
answered (failed e, s) = (some (err (wrap "deepseek: chat request" e)), s)
answered (response_error code, s) =
    (some (err (wrap "deepseek: chat request" (plain "httpclient: unexpected status"))), s)
answered (no_fuel, s) = (none, s)

-- `chatCompletion`, which is also `Summarize` and `AnswerQuery`.
unfoldable pub chat_completion :
    Llm → Surroundings → Json → Text → Text → Breaker → Net → Outcome (Option Text) × Breaker × Net
unfolding execute do_json
chat_completion l w json system_prompt user_content b s =
    execute (w.context 0) (some []) (w.clock 0).0 (w.clock 0).1
      (λ s. to_outcome [] (
        answered (
          do_json l.client w.transport "POST" (url_of l) (headers_of l)
            (some (json.marshal (chat_request system_prompt user_content))) (some json.decode) s)))
      b s
