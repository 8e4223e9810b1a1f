-- ===== src/Providers/CloudflareAi/Examples.antt =====
-- Five texts in batches of two: three requests.
use learn_rag.Common.{◌≡◌, ◌≢◌, refl, none, some, List, [], ◌∷◌, map, length}
use learn_rag.Common.Int.{pos}
use learn_rag.Common.Text.{Text, codes}
use learn_rag.Result.{ok}
use learn_rag.Model.{Vector}
use learn_rag.Breaker.{Breaker, live}
use learn_rag.Breaker
use learn_rag.HttpClient.{Transport, Net}
use learn_rag.HttpClient
use learn_rag.Providers.{with_defaults}
use learn_rag.Providers.CloudflareAi.{Config, Embedder, Json, new, embed_batch}
use learn_rag.Providers.CloudflareAi.Batches.{Batched, embed_batch-Batched}
use learn_rag.Providers.Sample.{no_limits, breaker, start, around}

abbrev config : Config
config = record { account_id = "a"; api_token = "t"; batch_size = pos 2; endpoint = "u" }

abbrev embedder : Embedder
embedder = record {
  client = HttpClient.new;
  account_id = "a";
  api_token = "t";
  batch_size = 2;
  endpoint = "u";
}

abbrev first_bytes : List Text → Text
first_bytes [] = []
first_bytes ([] ∷ texts) = first_bytes texts
first_bytes ((c ∷ t) ∷ texts) = c ∷ first_bytes texts

-- The body of a request is the first byte of each text, and that of a response a vector for each byte.
abbrev codec : Json
codec = record { marshal = λ texts. ok (first_bytes texts); decode = λ t. ok (map (λ c. 7 ∷ []) t) }

abbrev texts : List Text
texts = codes "a" ∷ codes "b" ∷ codes "c" ∷ codes "d" ∷ codes "e" ∷ []

abbrev vectors : List Vector
vectors = map (λ t. 7 ∷ []) texts

five :
    embed_batch embedder around codec texts breaker start
    ≡ (some (ok vectors), breaker, record { sent = 3; looks = 0; slept = [] })
unfolding embed_batch
five = refl

made : new config no_limits ≡ ok (embedder, breaker)
unfolding new Breaker.new with_defaults
made = refl

embed_batch-Batched_example :
    let r = (embed_batch embedder around codec texts breaker start).0 in
    (r ≢ none)
    × ((found : List Vector)
        → r ≡ some (ok found)
        → (length found ≡ length texts) × Batched embedder around codec texts found)
embed_batch-Batched_example =
    embed_batch-Batched config no_limits embedder breaker made around codec texts breaker start
