-- ===== src/Providers/DeepSeek/Examples.antt =====
-- A question whose answer is the server's echo of its content.
use learn_rag.Common.{◌≡◌, ◌≢◌, refl, none, some, List, [], ◌∷◌}
use learn_rag.Common.Int.{pos}
use learn_rag.Common.Text.{Text, codes}
use learn_rag.Result.{ok}
use learn_rag.Breaker.{Breaker, live}
use learn_rag.Breaker
use learn_rag.HttpClient.{Net, with_max_retries}
use learn_rag.HttpClient
use learn_rag.Providers.{with_defaults}
use learn_rag.Providers.DeepSeek.{Llm, ChatMessage, Json, new, chat_completion}
use learn_rag.Providers.DeepSeek.Choices.{Chosen, chat_completion-Chosen}
use learn_rag.Providers.Sample.{no_limits, breaker, start, around}

abbrev chat : Llm
chat = record { client = with_max_retries (pos 2) HttpClient.new; api_key = "k"; endpoint = "" }

abbrev last_content : List ChatMessage → Text
last_content [] = []
last_content (m ∷ []) = m.content
last_content (_ ∷ m ∷ ms) = last_content (m ∷ ms)

abbrev echo : Json
echo = record {
  marshal = λ req. ok (last_content req.messages);
  decode = λ t. ok (t ∷ codes "other" ∷ []);
}

echoed :
    chat_completion chat around echo (codes "be brief") (codes "why?") breaker start
    ≡ ((some (codes "why?"), none), breaker, record { sent = 1; looks = 0; slept = [] })
unfolding chat_completion
echoed = refl

made : new (record { api_key = "k"; endpoint = "" }) no_limits ≡ ok (chat, breaker)
unfolding new Breaker.new with_defaults
made = refl

chat_completion-Chosen_example :
    let r = (chat_completion chat around echo (codes "be brief") (codes "why?") breaker start).0 in
    (r.0 ≢ none)
    × ((text : Text)
        → r ≡ (some text, none)
        → Chosen chat around echo (codes "be brief") (codes "why?") text)
chat_completion-Chosen_example =
    chat_completion-Chosen (record { api_key = "k"; endpoint = "" }) no_limits chat breaker made
      around echo (codes "be brief") (codes "why?") breaker start
