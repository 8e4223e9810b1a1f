-- ===== src/Providers/DeepSeek/Choices.antt =====
-- A text that the language model's client gives is the first choice of the service.
use learn_rag.Common.{
  ◌≤◌, ◌≡◌, ◌≢◌, refl, ap, ◌∙◌, arith, inl, inr, Option, none, some, List, [], ◌∷◌,
}
use learn_rag.Common.Text.{Text}
use learn_rag.Errors.{plain, wrap}
use learn_rag.Result.{ok, Result-cases}
use learn_rag.Breaker.{Breaker}
use learn_rag.Breaker
use learn_rag.HttpClient.{
  Net, Response, JsonOutcome, decoded, failed, response_error, no_fuel, decode_body, do_json,
}
use learn_rag.HttpClient.Retries.{json_request, do_json-success}
use learn_rag.Providers.{Surroundings, to_outcome}
use learn_rag.Providers.Answers.{
  Served, Gives, refuses, result-Gives, to_outcome-Gives, execute-gives,
}
use learn_rag.Providers.DeepSeek.{
  Config, Llm, ChatRequest, Json, new, chat_request, url_of, headers_of, first_choice, answered,
  chat_completion,
}

-- The request with the two messages, the system's first.
abbrev pub asked_for : Text → Text → ChatRequest
asked_for system_prompt user_content = record {
  model = "deepseek-chat";
  messages =
      record { role = "system"; content = system_prompt }
      ∷ record { role = "user"; content = user_content }
      ∷ [];
}

-- The service answered the request with choices of which the text is the first.
pub record Chosen (l : Llm) (w : Surroundings) (json : Json) (system_prompt user_content : Text)
    (text : Text) : Type 0 where
  pub resp : Response
  pub served :
      Served w
        (json_request w.transport "POST"
          (url_of l)
          (headers_of l)
          (some (json.marshal (asked_for system_prompt user_content))))
        resp
  pub others : List Text
  pub content : json.decode resp.body ≡ ok (text ∷ others)

module _ (l : Llm) (w : Surroundings) (json : Json) (system_prompt user_content : Text)
    (within : l.client.initial_wait ≤ l.client.max_wait) where
  abbrev ask : Net → JsonOutcome (List Text) × Net
  ask s =
      do_json l.client w.transport "POST" (url_of l) (headers_of l)
        (some (json.marshal (chat_request system_prompt user_content))) (some json.decode) s

  decoded-ok :
      (body : Text) (x : Option (List Text))
      → decode_body (some json.decode) body ≡ decoded x
      → (choices : List Text) × (x ≡ some choices) × (json.decode body ≡ ok choices)
  decoded-ok body x h = elim (Result-cases (json.decode body)) [
    | inl (choices, g) ↦ (choices, ground arith, g)
    | inr (e, g) ↦ absurd (ground arith)
  ]

  first_choice-ok :
      (choices : List Text) (text : Text)
      → first_choice choices ≡ ok text
      → (others : List Text) × (choices ≡ text ∷ others)
  first_choice-ok [] text h = absurd cc
  first_choice-ok (c ∷ others) text h = (others, cc)

  answered-Gives :
      (s : Net) (r : JsonOutcome (List Text) × Net)
      → (ask s).0 ≡ r.0
      → Gives (Chosen l w json system_prompt user_content) (answered r)
  answered-Gives s (decoded x, s') h =
      let (n, req, resp, asked, answer, low, high, content) =
        (do_json-success l.client w.transport "POST" (url_of l) (headers_of l)
            (some (json.marshal (chat_request system_prompt user_content))) (some json.decode) s
            within).1
          x h in
      let (choices, is_some, same) = decoded-ok resp.body x content in
      rw is_some (
        result-Gives (first_choice choices) s' (λ text g.
          let (others, is) = first_choice-ok choices text g in
          record {
            resp = resp;
            served = record {
              number = n;
              req = req;
              asked = asked;
              answer = answer;
              success = (low, high);
            };
            others = others;
            content = same ∙ ap (λ x. ok x) is;
          }))
  answered-Gives s (failed e, s') h = refuses (wrap "deepseek: chat request" e) s'
  answered-Gives s (response_error code, s') h =
      refuses (wrap "deepseek: chat request" (plain "httpclient: unexpected status")) s'
  answered-Gives s (no_fuel, s') h = absurd (
      (do_json-success l.client w.transport "POST" (url_of l) (headers_of l)
          (some (json.marshal (chat_request system_prompt user_content))) (some json.decode) s
          within).0
        h)

new-fits :
    (cfg : Config) (cb : Breaker.Config) (l : Llm) (b : Breaker)
    → new cfg cb ≡ ok (l, b)
    → l.client.initial_wait ≤ l.client.max_wait
unfolding new
new-fits cfg cb l b h = ground arith

-- Summarize and AnswerQuery on a language model that New gave, whatever the breaker's state, the server and the contexts: they
-- end, and a text that they give without an error is the first of the choices that the service gave to a request with the
-- system prompt and the user's content, in this order, with a status from 200 to 299.
pub chat_completion-Chosen :
    (cfg : Config) (cb : Breaker.Config) (l : Llm) (b : Breaker)
    → new cfg cb ≡ ok (l, b)
    → (w : Surroundings) (json : Json) (system_prompt user_content : Text) (now : Breaker) (s : Net)
    → let r = (chat_completion l w json system_prompt user_content now s).0 in
      (r.0 ≢ none)
      × ((text : Text) → r ≡ (some text, none) → Chosen l w json system_prompt user_content text)
unfolding chat_completion
chat_completion-Chosen cfg cb l b h w json system_prompt user_content now s =
    let within = new-fits cfg cb l b h in
    let r = ask l w json system_prompt user_content within s in
    let once =
      to_outcome-Gives [] (answered r)
        (answered-Gives l w json system_prompt user_content within s r refl) in
    execute-gives (w.context 0) [] (w.clock 0).0 (w.clock 0).1
      (λ s. to_outcome [] (
        answered (
          do_json l.client w.transport "POST" (url_of l) (headers_of l)
            (some (json.marshal (chat_request system_prompt user_content))) (some json.decode) s)))
      now s once
