-- ===== src/Worker/PipelineExamples.antt =====
-- A job with a PDF file that is parsed into two sentences, and one whose video has no transcript id.
use learn_rag.Common.{
  ℕ, zero, suc, ◌≡◌, ◌≢◌, ◌↔◌, ◌⊎◌, refl, ◌==◌, if◌then◌else◌, String, true, false, arith, none,
  some, [], ◌∷◌,
}
use learn_rag.Common.Int.{pos, ◌≤ℤ◌, ◌<ℤ◌}
use learn_rag.Common.Text.{codes}
use learn_rag.Errors.{plain}
use learn_rag.Result.{ok, err}
use learn_rag.Model.{Job, JobStatus, Kind, Stage, Transcript, Vector}
use learn_rag.Database.{World}
use learn_rag.Database.Sample.{empty_db, sample_world}
use learn_rag.Database.Table.{select_one, select_all, count_rows, exists, delete, update}
use learn_rag.Queries.Segments.{sort_names, names_of}
use learn_rag.Queries.Jobs.{is_final}
use learn_rag.Repo.Lifecycle.{JobsAreSound}
use learn_rag.Worker.Files.{TypeFits, validate_media_file-accepts}
use learn_rag.Worker.Draining.{IsDrained, drain-IsDrained}
use learn_rag.Worker.Queue.{drain}
use learn_rag.Worker.Final.{Stands, process_job-final}
use learn_rag.Worker.Life.{other_jobs, process_job-IsSound, process_job-others}
use learn_rag.Worker.Media.{media_exts, is_in, ext, to_lower, validate_media_file}
use learn_rag.Worker.Pipeline.{Deps, process_job, run}
use learn_rag.Worker.Transcripts.{run-fails}

abbrev ids : ℕ → String
ids n = if n == 0 then "v1" else if n == 1 then "c1" else if n == 2 then "c2" else "s1"

abbrev job : Kind → String → Job
job kind file_key = record {
  id = "j1";
  tenant_id = "t1";
  upload_intent_id = none;
  file_key = file_key;
  title = codes "Course";
  kind = kind;
  status = JobStatus.processing;
  stage = Stage.downloading;
  error_message = none;
  retry_count = 0;
  started_at = some 5;
  finished_at = none;
  created_at = 1;
  updated_at = 5;
}

abbrev other : Job
other = record (job Kind.pdf "other.pdf") {
  id = "j2";
  status = JobStatus.pending;
  stage = Stage.queued;
  started_at = none;
}

abbrev world : Kind → String → World
world kind file_key =
    sample_world 10 ids (record empty_db { jobs = job kind file_key ∷ other ∷ [] })

abbrev repeat : ℕ → Vector
repeat zero = []
repeat (suc n) = 1 ∷ repeat n

abbrev spoken : Transcript
spoken = record {
  id = "";
  tenant_id = "";
  video_id = "";
  content = codes "One. Two.";
  language = none;
  model = none;
  created_at = 0;
}

abbrev deps : Deps
deps = record {
  temp_dir = λ n _. ok tt;
  download = λ n _. ok tt;
  stat = λ n _. ok (pos 100);
  detect = λ n _. ok (codes "application/pdf");
  transcribe = λ n _. ok spoken;
  parse = λ n _. ok (codes "One. Two.");
  embed_batch = λ n _. ok ([] ∷ []);
  llm = λ n _. err (plain "no model");
  max_tokens = 100;
  max_upload_bytes = pos 1000;
  embedding_batch_size = pos 16;
}

abbrev pdf : World
pdf = world Kind.pdf "k.pdf"

-- The transcript has no id, so that the job fails.
failed_job :
    (process_job deps "j1" pdf).1.db.jobs
    ≡ record (job Kind.pdf "k.pdf") {
      status = JobStatus.failed;
      stage = Stage.parsing;
      error_message = some "worker: upsert transcript: invalid input syntax for type uuid";
      finished_at = some 12;
      updated_at = 12;
    }
      ∷ other
      ∷ []
unfolding process_job select_one exists delete sort_names names_of update
failed_job = refl

process_job-final_example : Stands "j1" "t1" is_final (process_job deps "j1" pdf).1.db.jobs
unfolding select_one
process_job-final_example = process_job-final deps "j1" (job Kind.pdf "k.pdf") pdf (λ n. refl) refl

process_job-IsSound_example : JobsAreSound (process_job deps "j1" pdf).1.db
process_job-IsSound_example = process_job-IsSound deps "j1" pdf (refl, ((refl, refl, refl), tt))

process_job-others_example :
    other_jobs "j1" (process_job deps "j1" pdf).1.db.jobs ≡ other_jobs "j1" pdf.db.jobs
process_job-others_example = process_job-others deps "j1" pdf

run-fails_example :
    run deps (job Kind.video "k.mp4") (world Kind.video "k.mp4") ≢ (ok tt, world Kind.video "k.mp4")
run-fails_example =
    run-fails deps (job Kind.video "k.mp4") (world Kind.video "k.mp4") (λ n t h. no_id t h) refl
      (world Kind.video "k.mp4")
  where
    no_id : (t : Transcript) → ok spoken ≡ ok t → t.id ≡ ""
    no_id t h = cc

validate_media_file-accepts_example :
    (validate_media_file (ok (pos 100)) (codes "a/b.MP4") Kind.video (pos 1000) (err (plain "x"))
      ≡ ok tt)
    ↔ ((pos 0 <ℤ pos 100)
        × ((pos 1000 ≤ℤ pos 0) ⊎ (pos 100 ≤ℤ pos 1000))
        × ((is_in (media_exts Kind.video) (to_lower (ext (codes "a/b.MP4"))) ≡ true)
            ⊎ TypeFits Kind.video (err (plain "x"))))
validate_media_file-accepts_example =
    validate_media_file-accepts (pos 100) (codes "a/b.MP4") Kind.video (pos 1000) (err (plain "x"))

drain-IsDrained_example : IsDrained (λ n. false) (drain deps (λ n. false) 3 pdf)
unfolding select_all count_rows
drain-IsDrained_example =
    drain-IsDrained deps (λ n. false) 3 pdf (λ n. refl) (λ n id. refl) (refl, (refl, tt))
      (omega arith)
