-- ===== src/Providers/CloudflareAi/Batches.antt =====
-- The embeddings that EmbedBatch gives are those of the service, batch by batch.
use learn_rag.Common.{
  ℕ, zero, suc, ◌+◌, ◌-◌, ◌≤◌, ◌<◌, ◌≡◌, ◌≢◌, inl, inr, refl, ap, sym, ◌∙◌, Bool-cases, arith,
  Option, none, some, List, [], ◌++◌, ltb, ◌==◌, length, take, drop, length-append, length-take,
  length-drop, drop-add, ge→ltb, drop_all,
}
use native.Mathlib.Nat.{sub-zero}
use mathlib.Core.List.{append-nil, append_assoc}
use learn_rag.Common.Int.{ℤ, pos, negsuc}
use learn_rag.Common.Text.{Text}
use learn_rag.Result.{Result, ok, Result-cases}
use learn_rag.Model.{Vector}
use learn_rag.Breaker.{Breaker, Context, Outcome, background, live, cancelled, execute}
use learn_rag.Breaker
use learn_rag.HttpClient.{
  Net, Request, Response, JsonOutcome, decoded, failed, response_error, no_fuel, decode_body,
  do_json,
}
use learn_rag.HttpClient.Retries.{json_request, do_json-success}
use learn_rag.Providers.{Surroundings}
use learn_rag.Providers.Answers.{execute-gives}
use learn_rag.Providers.CloudflareAi.{
  Config, Embedder, Json, size_of, Vectors, new, url_of, headers_of, counted, embeddings_of,
  embed_one, after_batch, guarded, embed_loop, embed_batch,
}

-- The vectors are the server's answer to the request with the texts, one for each.
pub record Answered (e : Embedder) (w : Surroundings) (json : Json) (texts : List Text)
    (vectors : List Vector) : Type 0 where
  pub number : ℕ
  pub req : Request
  pub resp : Response
  pub asked :
      json_request w.transport "POST" (url_of e) (headers_of e) (some (json.marshal texts)) ≡ ok req
  pub answer : w.transport.send number req ≡ ok resp
  pub success : (200 ≤ resp.status_code) × (resp.status_code < 300)
  pub content : json.decode resp.body ≡ ok vectors
  pub each : length vectors ≡ length texts

-- The vectors of the texts, as many texts at once as a batch has.
pub data Batched (e : Embedder) (w : Surroundings) (json : Json)
    : List Text → List Vector → Type 0 where
  nothing : Batched e w json [] []
  batch :
      {texts : List Text} {vectors later : List Vector}
      → 0 < length texts
      → Answered e w json (take e.batch_size texts) vectors
      → Batched e w json (drop e.batch_size texts) later
      → Batched e w json texts (vectors ++ later)

module _ (e : Embedder) (w : Surroundings) (json : Json)
    (within : e.client.initial_wait ≤ e.client.max_wait) where
  decoded-ok :
      (body : Text) (x : Option (List Vector))
      → decode_body (some json.decode) body ≡ decoded x
      → (vectors : List Vector) × (x ≡ some vectors) × (json.decode body ≡ ok vectors)
  decoded-ok body x h = elim (Result-cases (json.decode body)) [
    | inl (vectors, g) ↦ (vectors, ground arith, g)
    | inr (e, g) ↦ absurd (ground arith)
  ]

  counted-ok :
      (n : ℕ) (vectors found : List Vector)
      → counted n vectors ≡ (some found, none)
      → (found ≡ vectors) × (length vectors ≡ n)
  counted-ok n vectors found h = ground arith

  counted-some : (n : ℕ) (vectors : List Vector) → (counted n vectors).0 ≢ none
  counted-some n vectors h = ground arith

  embeddings_of-Answered :
      (texts : List Text) (s : Net) (out : JsonOutcome (List Vector))
      → (do_json e.client w.transport "POST"
          (url_of e)
          (headers_of e)
          (some (json.marshal texts))
          (some json.decode)
          s).0
        ≡ out
      → ((embeddings_of (length texts) out).0 ≢ none)
        × ((vectors : List Vector)
            → embeddings_of (length texts) out ≡ (some vectors, none)
            → Answered e w json texts vectors)
  embeddings_of-Answered texts s (decoded x) h =
      let (n, req, resp, asked, answer, low, high, content) =
        (do_json-success e.client w.transport "POST" (url_of e) (headers_of e)
            (some (json.marshal texts)) (some json.decode) s within).1
          x h in
      let (vectors, is_some, same) = decoded-ok resp.body x content in
      rw is_some (
        counted-some (length texts) vectors,
        λ found g.
            let (found_is, each) = counted-ok (length texts) vectors found g in
            record {
              number = n;
              req = req;
              resp = resp;
              asked = asked;
              answer = answer;
              success = (low, high);
              content = same ∙ ap (λ x. ok x) (sym found_is);
              each = ap (λ x. length x) found_is ∙ each;
            },
      )
  embeddings_of-Answered texts s (failed e) h = (λ g. cc, λ v g. absurd cc)
  embeddings_of-Answered texts s (response_error code) h = (λ g. cc, λ v g. absurd cc)
  embeddings_of-Answered texts s no_fuel h = absurd (
      (do_json-success e.client w.transport "POST" (url_of e) (headers_of e)
          (some (json.marshal texts)) (some json.decode) s within).0
        h)

  -- A batch through the breaker.
  guarded-Answered :
      (texts : List Text) (start : ℕ) (b : Breaker) (s : Net)
      → let r = (guarded e w json texts start b s).0 in
        (r.0 ≢ none)
        × ((vectors : List Vector) → r ≡ (some vectors, none) → Answered e w json texts vectors)
  unfolding embed_one
  guarded-Answered texts start b s =
      let one =
        embeddings_of-Answered texts s
          (do_json e.client w.transport "POST" (url_of e) (headers_of e) (some (json.marshal texts))
            (some json.decode) s).0
          refl in
      execute-gives (w.context start) [] (w.clock start).0 (w.clock start).1
        (embed_one e w json texts) b s one

  -- What the loop has found from `start` on.
  unfoldable Found : List Text → ℕ → List Vector → Option (Result (List Vector)) → Type 0
  Found texts start all r =
      (r ≢ none)
      × ((vectors : List Vector)
          → r ≡ some (ok vectors)
          → (later : List Vector) × (vectors ≡ all ++ later)
            × Batched e w json (drop start texts) later
            × (length later ≡ length texts - start))

  module _ (texts : List Text) where
    finished :
        (start : ℕ) (all : List Vector)
        → length texts ≤ start
        → Found texts start all (some (ok all))
    unfolding Found
    finished start all done = (
      λ h. cc,
      λ vectors h. (
        [],
        sym (same h) ∙ sym (append-nil all),
        rw (drop_all start texts done) nothing,
        omega arith,
      ),
    )
      where
        same : {u v : List Vector} → some (ok u) ≡ some (ok v) → u ≡ v
        same h = cc

    next_batch :
        (fuel start : ℕ) (all : List Vector) (b : Breaker) (s : Net)
        → start < length texts
        → ((all : List Vector) (b : Breaker) (s : Net)
            → Found texts
                (start + e.batch_size)
                all
                (embed_loop e w json texts fuel (start + e.batch_size) all b s).0)
        → (r : Vectors) (b' : Breaker) (s' : Net)
        → ((r.0 ≢ none)
            × ((vectors : List Vector)
                → r ≡ (some vectors, none)
                → Answered e w json (take e.batch_size (drop start texts)) vectors))
        → Found texts start all
            (after_batch (embed_loop e w json texts fuel (start + e.batch_size)) all (r, b', s')).0
    unfolding Found
    next_batch fuel start all b s more rest (v, some e') b' s' one = (λ h. cc, λ v h. absurd cc)
    next_batch fuel start all b s more rest (none, none) b' s' one = absurd (one.0 refl)
    next_batch fuel start all b s more rest (some v, none) b' s' one =
        let (ends, found) = rest (all ++ v) b' s' in
        (
          ends,
          λ vectors h.
              let (later, is, batched, number) = found vectors h in
              let a = one.1 v refl in
              (
                v ++ later,
                is ∙ append_assoc all v later,
                batch (rw length-drop (omega arith)) a
                    (rw (drop-add start e.batch_size texts) batched),
                rw
                    (
                      length-append v later,
                      a.each,
                      length-take e.batch_size (drop start texts),
                      length-drop start texts,
                      number,
                    )
                    (omega arith),
              ),
        )

    embed_loop-Found :
        (fuel start : ℕ) (all : List Vector) (b : Breaker) (s : Net)
        → 1 ≤ e.batch_size
        → length texts ≤ start + fuel
        → Found texts start all (embed_loop e w json texts fuel start all b s).0
    unfolding embed_loop
    embed_loop-Found zero start all b s one enough =
        rw (ge→ltb start (length texts) (omega arith)) (finished start all (omega arith))
    embed_loop-Found (suc fuel) start all b s one enough =
        elim (Bool-cases (ltb start (length texts))) [
          | inl more ↦
              let ran = guarded e w json (take e.batch_size (drop start texts)) start b s in
              rw more (
                next_batch fuel start all b s (ground arith)
                  (λ all b s.
                    embed_loop-Found fuel (start + e.batch_size) all b s one (omega arith))
                  ran.0 ran.1 ran.2
                  (guarded-Answered (take e.batch_size (drop start texts)) start b s))
          | inr done ↦ rw done (finished start all (ground arith))
        ]

    embed_batch-Found :
        (b : Breaker) (s : Net)
        → 1 ≤ e.batch_size
        → Found texts 0 [] (embed_batch e w json texts b s).0
    unfolding embed_batch
    embed_batch-Found b s one = elim (Bool-cases (length texts == 0)) [
      | inl empty ↦ rw empty (finished 0 [] (ground arith))
      | inr full ↦ rw full (embed_loop-Found (length texts) 0 [] b s one (omega arith))
    ]

size_of-positive : (n : ℤ) → 1 ≤ size_of n
size_of-positive (pos m) = ground arith
size_of-positive (negsuc m) = ground arith

-- What New gives has batches of one text at least, and a client that waits no longer at first than at most.
new-fits :
    (cfg : Config) (cb : Breaker.Config) (e : Embedder) (b : Breaker)
    → new cfg cb ≡ ok (e, b)
    → (1 ≤ e.batch_size) × (e.client.initial_wait ≤ e.client.max_wait)
unfolding new
new-fits cfg cb e b h = let size = size_of-positive cfg.batch_size in ground arith

-- EmbedBatch on an embedder that New gave, whatever the breaker's state, the server and the contexts: it ends, and if it gives
-- vectors, there is one for each text, and they are, in order, what the server answered to one request for each batch of the
-- texts, with a status from 200 to 299 and as many vectors as the batch has texts.
pub embed_batch-Batched :
    (cfg : Config) (cb : Breaker.Config) (e : Embedder) (b : Breaker)
    → new cfg cb ≡ ok (e, b)
    → (w : Surroundings) (json : Json) (texts : List Text) (now : Breaker) (s : Net)
    → let r = (embed_batch e w json texts now s).0 in
      (r ≢ none)
      × ((vectors : List Vector)
          → r ≡ some (ok vectors)
          → (length vectors ≡ length texts) × Batched e w json texts vectors)
unfolding Found
embed_batch-Batched cfg cb e b h w json texts now s =
    let (one, within) = new-fits cfg cb e b h in
    let (ends, found) = embed_batch-Found e w json within texts now s one in
    (
      ends,
      λ vectors g.
          let (later, is, batched, number) = found vectors g in
          rw is (number ∙ sub-zero (length texts), batched),
    )
