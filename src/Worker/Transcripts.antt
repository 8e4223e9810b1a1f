-- ===== src/Worker/Transcripts.antt =====
-- The id of a transcript. `extractTranscript` sets no id in the transcript that it stores, nor does
-- internal/providers/groq/groq.go in the one that it answers with.
use learn_rag.Common.{
  ℕ, ◌≡◌, ◌≢◌, refl, sym, ap, ◌∙◌, arith, Bool, true, false, if◌then◌else◌, String, none, List,
}
use learn_rag.Errors.{Err, wrap}
use learn_rag.Result.{Result, ok, err}
use learn_rag.Model.{Job, Kind, Stage, Transcript}
use learn_rag.Database.{call, Db, Env, World, M, ◌>>◌}
use learn_rag.Database.Keeps.{Keeps, map_err-Keeps}
use learn_rag.Database.Outcome.{
  Outcome, weaken, bind-Outcome, then-Outcome, map_err-Outcome, exec-Outcome, return-Outcome,
  with_tenant_tx-Outcome, time_now-Outcome,
}
use learn_rag.Queries.Contents.{upsert_transcript}
use learn_rag.Repo.Contents.{save_transcript}
use learn_rag.Repo.JobsKept.{OnJobs}
use learn_rag.Repo.Moves.{update_status-OnJobs}
use learn_rag.Worker.Calls.{call-Keeps, check_file-Keeps}
use learn_rag.Worker.Pipeline.{
  Deps, keep_transcript, transcribed, parsed, parsed_transcript, by_kind, extract_transcript,
  store_chunks, complete, generate_summary, run,
}
use learn_rag.Worker.Steps.{Moves, set_stage-Keeps, prepare-Keeps}

-- A transcript is stored only if the server takes its id.
upsert_transcript_ok :
    (valid : Bool) (e : Err) {A : Type 0} (r : Result A) {a : A}
    → (if valid then r else err e) ≡ ok a
    → valid ≡ true
upsert_transcript_ok true e r h = refl
upsert_transcript_ok false e r h = cc

save_transcript-valid :
    (t : Transcript) → Outcome (save_transcript t) (λ w a w'. w.env.valid_uuid t.id ≡ true)
unfolding save_transcript upsert_transcript
save_transcript-valid t =
    weaken
      (with_tenant_tx-Outcome t.tenant_id
        (then-Outcome (exec-Outcome (upsert_transcript t)) (return-Outcome {x = tt})))
      (λ w a w' (begun, done, (env, _), (_, between, (ran, _), _), _).
        ap (λ (e : Env). e.valid_uuid t.id) (sym env) ∙ upsert_transcript_ok _ _ _ ran)

same-Outcome :
    {A : Type 0} {P : Db → Type 0} {m : M A} → Keeps P m → Outcome m (λ w a w'. w'.env ≡ w.env)
same-Outcome {A} inner = record {
  holds = λ w a w' h. ap (λ (r : Result A × World). r.1.env) (sym h) ∙ inner.same_env w;
}

keep_transcript-valid :
    (job : Job) (video_id : String) (t : Transcript)
    → Outcome (keep_transcript job video_id t) (λ w a w'. w.env.valid_uuid t.id ≡ true)
unfolding keep_transcript
keep_transcript-valid job video_id t =
    weaken
      (bind-Outcome time_now-Outcome λ now.
        let kept : Transcript = record t {
          tenant_id = job.tenant_id;
          video_id = video_id;
          created_at = now;
        } in
        then-Outcome
          (map_err-Outcome (wrap "worker: upsert transcript") (save_transcript-valid kept))
          (return-Outcome {x = kept}))
      (λ w a w' (now, between, (_, (env, _)), (_, _, valid, _)).
        ap (λ (e : Env). e.valid_uuid t.id) (sym env) ∙ valid)

abbrev Anything : List Job → Type 0
Anything _ = Unit {0}

moves : (job : Job) → Moves Anything job
moves job = record {
  stages = λ stage. update_status-OnJobs _ _ _ stage none Anything (λ now jobs _. tt);
  completes = update_status-OnJobs _ _ _ _ none Anything (λ now jobs _. tt);
  fails = λ stage message. update_status-OnJobs _ _ _ stage _ Anything (λ now jobs _. tt);
}

-- The server does not take an empty text for a uuid, as Postgres does not.
abbrev pub RefusesEmptyId : Env → Type 0
RefusesEmptyId env = env.valid_uuid "" ≡ false

-- The transcription service answers with transcripts without an id, as internal/providers/groq/groq.go does.
abbrev pub GivesNoId : Deps → Type 0
GivesNoId d = (n : ℕ) (t : Transcript) → d.transcribe n tt ≡ ok t → t.id ≡ ""

clash : (valid : String → Bool) (id : String) → id ≡ "" → valid id ≡ true → valid "" ≡ false → ⊥
clash valid id empty taken refused = cc

module _ (d : Deps) (job : Job) (no_id : GivesNoId d) where
  abbrev Never : {A : Type 0} → World → A → World → Type 0
  Never w a w' = RefusesEmptyId w.env → ⊥

  call-Outcome : Outcome (call d.transcribe tt) (λ w t w'. (t.id ≡ "") × (w'.env ≡ w.env))
  call-Outcome = record { holds = λ w t w' h. (no_id w.calls t (ground arith), ground arith) }

  transcribed-Never : (video_id : String) → Outcome (transcribed d job video_id) Never
  unfolding transcribed
  transcribed-Never video_id =
      weaken
        (then-Outcome (same-Outcome (set_stage-Keeps Anything job (moves job) Stage.transcribing)) (
          bind-Outcome (map_err-Outcome (wrap "worker: transcribe") call-Outcome)
            λ t. keep_transcript-valid job video_id t))
        (λ w a w' (_, u, first, (t, v, (empty, second), valid)) refused.
          clash v.env.valid_uuid t.id empty valid
            (ap (λ (e : Env). e.valid_uuid "") (second ∙ first) ∙ refused))

  parsed-Never : (video_id : String) → Outcome (parsed d job video_id) Never
  unfolding parsed
  parsed-Never video_id =
      weaken
        (then-Outcome (same-Outcome (set_stage-Keeps Anything job (moves job) Stage.parsing)) (
          bind-Outcome
            (same-Outcome {P = OnJobs Anything}
              (map_err-Keeps (wrap "worker: detect content type") (call-Keeps d.detect tt)))
            λ mt.
              bind-Outcome
                (same-Outcome {P = OnJobs Anything}
                  (map_err-Keeps (wrap "worker: parse") (call-Keeps d.parse mt)))
                λ text. keep_transcript-valid job video_id (parsed_transcript text)))
        (λ w a w' (_, u, first, (_, v, second, (_, x, third, valid))) refused.
          clash x.env.valid_uuid "" refl valid
            (ap (λ (e : Env). e.valid_uuid "") (third ∙ second ∙ first) ∙ refused))

  by_kind-Never : (video_id : String) (kind : Kind) → Outcome (by_kind d job video_id kind) Never
  unfolding by_kind
  by_kind-Never video_id Kind.video = transcribed-Never video_id
  by_kind-Never video_id Kind.audio = transcribed-Never video_id
  by_kind-Never video_id Kind.pdf = parsed-Never video_id
  by_kind-Never video_id (Kind.unknown k) = record { holds = λ w a w' h refused. cc }

  extract_transcript-Never : (video_id : String) → Outcome (extract_transcript d job video_id) Never
  unfolding extract_transcript
  extract_transcript-Never video_id =
      weaken
        (then-Outcome
          (same-Outcome {P = OnJobs Anything}
            (map_err-Keeps (wrap "worker: create temp dir") (call-Keeps d.temp_dir tt)))
          (then-Outcome (same-Outcome (set_stage-Keeps Anything job (moves job) Stage.downloading))
            (then-Outcome
              (same-Outcome {P = OnJobs Anything}
                (map_err-Keeps (wrap "worker: download") (call-Keeps d.download job.file_key)))
              (then-Outcome (same-Outcome {P = OnJobs Anything} (check_file-Keeps d job))
                (by_kind-Never video_id job.kind)))))
        (λ w a w' (_, _, one, (_, _, two, (_, _, three, (_, _, four, never)))) refused.
          never (ap (λ (e : Env). e.valid_uuid "") (four ∙ three ∙ two ∙ one) ∙ refused))

-- If the server does not take an empty text for a uuid, and the transcription service answers with transcripts
-- without an id, no run of the pipeline succeeds, for a job of any kind.
pub run-fails :
    (d : Deps) (job : Job) (w : World)
    → GivesNoId d
    → RefusesEmptyId w.env
    → (w' : World) → run d job w ≢ (ok tt, w')
unfolding run
run-fails d job w no_id refused w' h =
    let never = bind-Outcome (same-Outcome (prepare-Keeps Anything job (moves job))) λ video_id.
      bind-Outcome (extract_transcript-Never d job no_id video_id) λ t. any-Outcome (λ w.
        (store_chunks d job video_id t
            >> (complete job video_id >> generate_summary d job video_id t))
          w) in
    let (_, _, env, (_, _, never_done, _)) = never.holds w tt w' h in
    never_done (ap (λ (e : Env). e.valid_uuid "") env ∙ refused)
  where
    any-Outcome : {A : Type 0} (m : M A) → Outcome m (λ w a w'. Unit {0})
    any-Outcome m = record { holds = λ w a w' h. tt }
