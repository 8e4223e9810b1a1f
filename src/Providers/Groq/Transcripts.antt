-- ===== src/Providers/Groq/Transcripts.antt =====
-- A transcript that Transcribe gives is what the service made of the file, without an id.
use learn_rag.Common.{
  ℕ, ◌≤◌, ◌≡◌, ◌≢◌, inl, inr, refl, arith, String, false, Option, none, some, [], ◌∷◌, ◌==◌, length,
}
use learn_rag.Common.Text.{Text}
use learn_rag.Errors.{wrap}
use learn_rag.Result.{Result, ok, err, Result-cases}
use learn_rag.Model.{Transcript}
use learn_rag.Breaker.{Breaker}
use learn_rag.Breaker
use learn_rag.HttpClient.{
  Net, Request, Response, Answer, do_with_retry_reader, build_request, named_type, with_body,
}
use learn_rag.Providers.{Surroundings, is_failure, to_outcome}
use learn_rag.Providers.Answers.{
  Served, Gives, refuses, result-Gives, do_with_retry_reader-Served, to_outcome-Gives,
  execute-gives,
}
use learn_rag.Providers.Groq.{
  Config, Transcriber, TranscribeInput, TranscriptionResponse, Outside, new, new_boundary,
  build_multipart, url_of, headers_of, content_type_of, transcript_of, new_transcript, answered,
  transcribe_once, transcribe, model_of,
}

-- The request of an attempt.
abbrev pub request_of :
    Transcriber → Surroundings → Outside → TranscribeInput → String → ℕ → Result Request
request_of t w o input boundary attempt =
    with_body
      (λ body.
        build_request w.transport "POST" (url_of t) (headers_of t) body
          (named_type (content_type_of boundary)))
      (build_multipart o input boundary attempt)

-- A pointer to a transcript, with the text that the service gave, which is not empty, with the model that was used, and without an id.
pub record Transcribed (t : Transcriber) (w : Surroundings) (o : Outside) (input : TranscribeInput)
    (found : Option Transcript) : Type 0 where
  pub transcript : Transcript
  pub is : found ≡ some transcript
  pub boundary : String
  pub attempt : ℕ
  pub resp : Response
  pub served : Served w (request_of t w o input boundary attempt) resp
  pub out : TranscriptionResponse
  pub content : o.decode resp.body ≡ ok out
  pub text : transcript.content ≡ out.text
  pub not_empty : transcript.content ≢ []
  pub model : transcript.model ≡ some (model_of input)
  pub no_id : transcript.id ≡ ""

module _ (t : Transcriber) (w : Surroundings) (o : Outside) (input : TranscribeInput)
    (within : t.client.initial_wait ≤ t.client.max_wait) where
  transcript_of-ok :
      (resp : Response) (found : Option Transcript)
      → transcript_of o input resp ≡ ok found
      → (is_failure resp.status_code ≡ false)
        × (out : TranscriptionResponse) × (o.decode resp.body ≡ ok out)
        × ((length out.text == 0) ≡ false)
        × (found ≡ some (new_transcript input out))
  transcript_of-ok resp found h = elim (Result-cases (o.decode resp.body)) [
    | inr (e, g) ↦ absurd (ground arith)
    | inl (out, g) ↦ (ground arith, out, g, ground arith, ground arith)
  ]

  answered-Gives :
      (boundary : String) (a : Answer)
      → a.0 ≢ none
      → ((resp : Response)
          → a.0 ≡ some (ok resp)
          → is_failure resp.status_code ≡ false
          → (attempt : ℕ) × Served w (request_of t w o input boundary attempt) resp)
      → Gives (Transcribed t w o input) (answered o input a)
  answered-Gives boundary (none, s) ends served = absurd (ends refl)
  answered-Gives boundary (some (err e), s) ends served =
      refuses (wrap "groq: transcribe request" e) s
  answered-Gives boundary (some (ok resp), s) ends served =
      result-Gives (transcript_of o input resp) s (λ found h.
        let (good, out, content, full, is) = transcript_of-ok resp found h in
        let (attempt, was_served) = served resp refl good in
        record {
          transcript = new_transcript input out;
          is = is;
          boundary = boundary;
          attempt = attempt;
          resp = resp;
          served = was_served;
          out = out;
          content = content;
          text = refl;
          not_empty = λ empty. length-full out.text full empty;
          model = refl;
          no_id = refl;
        })
    where
      length-full : (text : Text) → (length text == 0) ≡ false → text ≢ []
      length-full [] full empty = absurd cc
      length-full (_ ∷ _) full empty = absurd cc

  transcribe_once-Gives :
      (s : Net) → Gives (Transcribed t w o input) (transcribe_once t w o input s)
  unfolding transcribe_once
  transcribe_once-Gives s = elim (Result-cases (new_boundary o)) [
    | inr (e, g) ↦ rw (transcribe_once, g) (refuses (wrap "groq: generate boundary" e) s)
    | inl (boundary, g) ↦
        let (ends, served) =
          do_with_retry_reader-Served w t.client "POST" (url_of t) (headers_of t)
            (content_type_of boundary) (build_multipart o input boundary) s within in
        rw (transcribe_once, g)
          (answered-Gives boundary
            (do_with_retry_reader t.client w.transport "POST" (url_of t) (headers_of t)
              (content_type_of boundary) (build_multipart o input boundary) s)
            ends served)
  ]

new-fits :
    (cfg : Config) (cb : Breaker.Config) (t : Transcriber) (b : Breaker)
    → new cfg cb ≡ ok (t, b)
    → t.client.initial_wait ≤ t.client.max_wait
unfolding new
new-fits cfg cb t b h = ground arith

-- Transcribe on a transcriber that New gave, whatever the breaker's state, the files, the server and the contexts: it ends, and
-- what it gives without an error is a pointer to a transcript with the text that the service gave to a request with the file, with
-- a status from 200 to 299; the text is not empty, the model is the one that was asked for or the default, and the id is empty.
pub transcribe-Transcribed :
    (cfg : Config) (cb : Breaker.Config) (t : Transcriber) (b : Breaker)
    → new cfg cb ≡ ok (t, b)
    → (w : Surroundings) (o : Outside) (input : TranscribeInput) (now : Breaker) (s : Net)
    → let r = (transcribe t w o input now s).0 in
      (r.0 ≢ none)
      × ((found : Option Transcript) → r ≡ (some found, none) → Transcribed t w o input found)
unfolding transcribe
transcribe-Transcribed cfg cb t b h w o input now s =
    let within = new-fits cfg cb t b h in
    let once =
      to_outcome-Gives none (transcribe_once t w o input s)
        (transcribe_once-Gives t w o input within s) in
    execute-gives (w.context 0) none (w.clock 0).0 (w.clock 0).1
      (λ s. to_outcome none (transcribe_once t w o input s)) now s once
