-- ===== src/Providers/CloudflareAi.antt =====
-- internal/providers/cloudflareai/cloudflareai.go. What JSON makes of a request and of a response is a parameter.
-- The numbers in the texts of errors are left out.
pub mod Batches
mod Examples
use text.Mathlib.Text.{◌==◌ as str_eq}
use Prim.Native.String.{◌++◌ as join}
use learn_rag.Common.{
  ℕ, zero, suc, ◌+◌, String, Bool, ◌||◌, Option, none, some, List, [], ◌∷◌, ◌++◌, if◌then◌else◌,
  ◌==◌, ltb, leb, length, take, drop,
}
use learn_rag.Common.Int.{ℤ, pos, pos_part, leb_ℤ}
use learn_rag.Common.Text.{Text}
use learn_rag.Errors.{Err, plain, wrap}
use learn_rag.Result.{Result, ok, err}
use learn_rag.Model.{Vector}
use learn_rag.Breaker.{Breaker, Outcome, execute}
use learn_rag.Breaker
use learn_rag.HttpClient.{
  HttpClient, Net, JsonOutcome, decoded, failed, response_error, no_fuel, do_json,
}
use learn_rag.HttpClient
use learn_rag.Providers.{Surroundings, with_defaults}

pub record Config : Type 0 where
  pub account_id : String
  pub api_token : String
  pub batch_size : ℤ
  pub endpoint : String

-- `Embedder`; its breaker is state.
pub record Embedder : Type 0 where
  pub client : HttpClient
  pub account_id : String
  pub api_token : String
  pub batch_size : ℕ
  pub endpoint : String

-- The batch size of `New`.
abbrev pub size_of : ℤ → ℕ
size_of n = if leb_ℤ n (pos 0) then 16 else pos_part n

-- `New`.
unfoldable pub new : Config → Breaker.Config → Result (Embedder × Breaker)
new cfg cb =
    if str_eq cfg.account_id "" || str_eq cfg.api_token ""
    then err (plain "cloudflareai: account id and API token are required")
    else ok (
      record {
        client = HttpClient.new;
        account_id = cfg.account_id;
        api_token = cfg.api_token;
        batch_size = size_of cfg.batch_size;
        endpoint = cfg.endpoint;
      },
      Breaker.new (with_defaults cb),
    )

-- The JSON library, on `embedRequest` and on `embedResponse`.
pub record Json : Type 0 where
  pub marshal : List Text → Result Text
  pub decode : Text → Result (List Vector)

-- The URL of a request.
abbrev pub url_of : Embedder → String
url_of e =
    if str_eq e.endpoint ""
    then join (join "https://api.cloudflare.com/client/v4/accounts/" e.account_id)
        "/ai/run/@cf/baai/bge-m3"
    else e.endpoint

abbrev pub headers_of : Embedder → List (String × List String)
headers_of e = ("Authorization", join "Bearer " e.api_token ∷ []) ∷ []

-- What a call gives: the vectors and the error, and no vectors at all if there is no fuel.
abbrev pub Vectors : Type 0
Vectors = Outcome (Option (List Vector))

-- The check of the number of embeddings.
abbrev pub counted : ℕ → List Vector → Vectors
counted n vectors =
    if length vectors == n
    then (some vectors, none)
    else (some [], some (plain "cloudflareai: unexpected number of embeddings"))

abbrev pub embeddings_of : ℕ → JsonOutcome (List Vector) → Vectors
embeddings_of n (decoded none) = counted n []
embeddings_of n (decoded (some vectors)) = counted n vectors
embeddings_of n (failed e) = (some [], some e)
embeddings_of n (response_error code) = (some [], some (plain "httpclient: unexpected status"))
embeddings_of n no_fuel = (none, none)

-- `embedOne`.
unfoldable pub embed_one : Embedder → Surroundings → Json → List Text → Net → Vectors × Net
unfolding do_json
embed_one e w json texts s =
    let (out, s') =
      do_json e.client w.transport "POST" (url_of e) (headers_of e) (some (json.marshal texts))
        (some json.decode) s in
    (embeddings_of (length texts) out, s')

-- What `EmbedBatch` answers: none if the fuel does not suffice.
abbrev pub Embedded : Type 0
Embedded = Option (Result (List Vector)) × Breaker × Net

-- After a batch: the next one, unless there is an error.
abbrev pub after_batch :
    (List Vector → Breaker → Net → Embedded) → List Vector → Vectors × Breaker × Net → Embedded
after_batch again all ((v, some e), b, s) = (some (err (wrap "cloudflareai: embed batch" e)), b, s)
after_batch again all ((none, none), b, s) = (none, b, s)
after_batch again all ((some v, none), b, s) = again (all ++ v) b s

-- One batch through the breaker.
abbrev pub guarded :
    Embedder → Surroundings → Json → List Text → ℕ → Breaker → Net → Vectors × Breaker × Net
guarded e w json batch start b s =
    execute (w.context start) (some []) (w.clock start).0 (w.clock start).1
      (embed_one e w json batch) b s

-- The loop of `EmbedBatch` from `start` on.
unfoldable pub embed_loop :
    Embedder → Surroundings → Json → List Text → ℕ → ℕ → List Vector → Breaker → Net → Embedded
unfolding execute embed_one
embed_loop e w json texts zero start all b s =
    (if ltb start (length texts) then none else some (ok all), b, s)
embed_loop e w json texts (suc fuel) start all b s =
    let next =
      after_batch (embed_loop e w json texts fuel (start + e.batch_size)) all
        (guarded e w json (take e.batch_size (drop start texts)) start b s) in
    if ltb start (length texts) then next else (some (ok all), b, s)

-- `EmbedBatch`.
unfoldable pub embed_batch : Embedder → Surroundings → Json → List Text → Breaker → Net → Embedded
unfolding embed_loop
embed_batch e w json texts b s =
    let run = embed_loop e w json texts (length texts) 0 [] b s in
    if length texts == 0 then (some (ok []), b, s) else run
