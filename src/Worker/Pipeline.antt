-- ===== src/Worker/Pipeline.antt =====
-- internal/worker/processor.go: `ProcessJob` and the stages of a job. The object storage, the file
-- system and the providers are parameters.
use text.Mathlib.Text.{◌==◌ as str_eq}
use learn_rag.Common.{ℕ, zero, suc, String, none, some, List, [], ◌∷◌, if◌then◌else◌}
use learn_rag.Common.Int.{ℤ}
use learn_rag.Common.Text.{Text, codes, is_empty}
use learn_rag.Chunker.{chunk}
use learn_rag.Errors.{Err, plain, wrap, error_text}
use learn_rag.Result.{Result, ok, err}
use learn_rag.Model.{
  Job, JobStatus, Video, VideoStatus, Kind, Stage, Transcript, Summary, SummaryStatus, Vector,
}
use learn_rag.Database.{
  logged, Service, call, World, M, ◌>>=◌, ◌>>◌, return, throw, map_err, new_uuid, time_now,
}
use learn_rag.Repo.Jobs.{update_status, get_by_id_all_tenants}
use learn_rag.Repo.Segments.{ensure_by_name, attach_video_segments, list_names_by_job_id}
use learn_rag.Repo.Videos
use learn_rag.Repo.Contents.{save_transcript, insert_chunks, save_summary}
use learn_rag.Summarizer.{summarize}
use learn_rag.Worker.{embed_sections}
use learn_rag.Worker.Media.{validate_media_file}

-- `pipelineDeps` without the repositories and the log.
pub record Deps : Type 0 where
  pub temp_dir : Service (Unit {0}) (Unit {0})
  pub download : Service String (Unit {0})
  pub stat : Service (Unit {0}) ℤ
  pub detect : Service (Unit {0}) Text
  pub transcribe : Service (Unit {0}) Transcript
  pub parse : Service Text Text
  pub embed_batch : Service (List Text) (List Vector)
  pub llm : Service (Text × Text) Text
  pub max_tokens : ℕ
  pub max_upload_bytes : ℤ
  pub embedding_batch_size : ℤ

-- What a call of a service answered, as a value.
abbrev pub answered : {A B : Type 0} → Service A B → A → M (Result B)
answered f a w = (ok (f w.calls a), record w { calls = suc w.calls })

-- A result as the outcome of a step.
abbrev pub from_result : {A : Type 0} → Result A → M A
from_result r w = (r, w)

-- `setStage`.
unfoldable pub set_stage : Job → Stage → M (Unit {0})
unfolding update_status
set_stage job stage = do
  map_err (wrap "worker: update stage")
      (update_status job.id job.tenant_id JobStatus.processing stage none)
  λ w. (ok tt, record w { stage = stage })

-- The loop of `copyJobSegments`.
unfoldable pub ensure_names : String → List Text → M (List String)
unfolding ensure_by_name
ensure_names tenant_id [] = return []
ensure_names tenant_id (name ∷ names) = do
  seg ← ensure_by_name tenant_id name
  ids ← ensure_names tenant_id names
  return (seg.id ∷ ids)

-- `copyJobSegments`.
unfoldable pub copy_job_segments : Job → String → M (Unit {0})
unfolding ensure_names list_names_by_job_id attach_video_segments
copy_job_segments job video_id = do
  names ← list_names_by_job_id job.id job.tenant_id
  ids ← ensure_names job.tenant_id names
  attach_video_segments video_id job.tenant_id ids

-- The transcript with the tenant, the video and the time, stored.
unfoldable pub keep_transcript : Job → String → Transcript → M Transcript
unfolding save_transcript time_now
keep_transcript job video_id t = do
  now ← time_now
  let tr : Transcript = record t {
    tenant_id = job.tenant_id;
    video_id = video_id;
    created_at = now;
  }
  map_err (wrap "worker: upsert transcript") (save_transcript tr)
  return tr

-- The case of videos and audio files in `extractTranscript`.
unfoldable pub transcribed : Deps → Job → String → M Transcript
unfolding set_stage keep_transcript
transcribed d job video_id = do
  set_stage job Stage.transcribing
  tr ← map_err (wrap "worker: transcribe") (call d.transcribe tt)
  keep_transcript job video_id tr

-- `model.Transcript{Content: text}`, of which `keep_transcript` sets the other fields.
abbrev pub parsed_transcript : Text → Transcript
parsed_transcript text = record {
  id = "";
  tenant_id = "";
  video_id = "";
  content = text;
  language = none;
  model = none;
  created_at = 0;
}

-- The case of PDF files.
unfoldable pub parsed : Deps → Job → String → M Transcript
unfolding set_stage keep_transcript
parsed d job video_id = do
  set_stage job Stage.parsing
  mt ← map_err (wrap "worker: detect content type") (call d.detect tt)
  text ← map_err (wrap "worker: parse") (call d.parse mt)
  keep_transcript job video_id (parsed_transcript text)

-- The `switch` of `extractTranscript`.
unfoldable pub by_kind : Deps → Job → String → Kind → M Transcript
unfolding transcribed parsed
by_kind d job video_id Kind.video = transcribed d job video_id
by_kind d job video_id Kind.audio = transcribed d job video_id
by_kind d job video_id Kind.pdf = parsed d job video_id
by_kind d job video_id (Kind.unknown k) = throw (wrap "unsupported job kind" (plain k))

-- The check of the downloaded file; the answer of the
-- detection is not used where the code does not ask for it.
unfoldable pub check_file : Deps → Job → M (Unit {0})
unfolding validate_media_file
check_file d job = do
  size ← answered d.stat tt
  mime ← answered d.detect tt
  from_result (validate_media_file size (codes job.file_key) job.kind d.max_upload_bytes mime)

-- `extractTranscript`.
unfoldable pub extract_transcript : Deps → Job → String → M Transcript
unfolding set_stage check_file by_kind
extract_transcript d job video_id = do
  map_err (wrap "worker: create temp dir") (call d.temp_dir tt)
  set_stage job Stage.downloading
  map_err (wrap "worker: download") (call d.download job.file_key)
  check_file d job
  by_kind d job video_id job.kind

-- The language model of the summarizer.
abbrev pub llm_of : Deps → Text → Text → ℕ → Result Text × ℕ
llm_of d system text n = (d.llm n (system, text), suc n)

-- `d.summarizer.Summarize(ctx, tr.Content, d.llm)`.
unfoldable pub summarize_once : Deps → Text → World → Result Text × World
unfolding summarize
summarize_once d content w =
    let (r, n) = summarize d.max_tokens content (llm_of d) w.calls in (r, record w { calls = n })

abbrev pub summary_attempts : ℕ
summary_attempts = 2

-- The loop of `generateSummary`: it stops at the first success.
abbrev pub or_else :
    Result Text × World → (Result Text → World → Result Text × World) → Result Text × World
or_else (ok content, w) next = (ok content, w)
or_else (err e, w) next = next (err e) w

unfoldable pub attempts : Deps → Text → ℕ → Result Text → World → Result Text × World
unfolding summarize_once
attempts d content zero last w = (last, w)
attempts d content (suc n) last w = or_else (summarize_once d content w) (attempts d content n)

-- The row for the outcome.
abbrev pub summary_row : Job → String → Transcript → Result Text → String → ℕ → ℕ → Summary
summary_row job video_id tr (ok content) id created updated = record {
  id = id;
  tenant_id = job.tenant_id;
  video_id = video_id;
  status = SummaryStatus.completed;
  content = some content;
  language = tr.language;
  model = some "deepseek";
  error_message = none;
  created_at = created;
  updated_at = updated;
}
summary_row job video_id tr (err _) id created updated = record {
  id = id;
  tenant_id = job.tenant_id;
  video_id = video_id;
  status = SummaryStatus.failed;
  content = none;
  language = none;
  model = none;
  error_message = some "summary generation failed";
  created_at = created;
  updated_at = updated;
}

-- `recordSummary`.
unfoldable pub record_summary : Job → String → Transcript → Result Text → M (Unit {0})
unfolding save_summary new_uuid time_now
record_summary job video_id tr outcome = do
  id ← new_uuid
  created ← time_now
  updated ← time_now
  logged (save_summary (summary_row job video_id tr outcome id created updated))

abbrev pub summarized : Job → String → Transcript → Result Text × World → Result (Unit {0}) × World
summarized job video_id tr (outcome, w) = record_summary job video_id tr outcome w

-- `generateSummary`.
unfoldable pub generate_summary : Deps → Job → String → Transcript → M (Unit {0})
unfolding attempts record_summary
generate_summary d job video_id tr w =
    let made = summarized job video_id tr (attempts d tr.content summary_attempts (ok []) w) in
    if is_empty tr.content then (ok tt, w) else made

-- The video of a job.
abbrev pub new_video : Job → String → ℕ → Video
new_video job id now = record {
  id = id;
  tenant_id = job.tenant_id;
  job_id = job.id;
  title = job.title;
  kind = job.kind;
  file_key = job.file_key;
  status = VideoStatus.processing;
  duration_seconds = none;
  deleted_at = none;
  created_at = now;
  updated_at = now;
}

-- The start of `run`: the old video goes, a new one comes with the segments of the job.
unfoldable pub prepare : Job → M String
unfolding Videos.delete_by_job_id Videos.create new_uuid time_now copy_job_segments
prepare job = do
  map_err (wrap "worker: cleanup existing video") (Videos.delete_by_job_id job.id job.tenant_id)
  now ← time_now
  id ← new_uuid
  map_err (wrap "worker: create video") (Videos.create (new_video job id now))
  map_err (wrap "worker: copy job segments") (copy_job_segments job id)
  return id

-- The chunks of the transcript, stored.
unfoldable pub store_chunks : Deps → Job → String → Transcript → M (Unit {0})
unfolding set_stage embed_sections insert_chunks chunk
store_chunks d job video_id tr = do
  set_stage job Stage.chunking
  set_stage job Stage.embedding
  chunks ←
      embed_sections (call d.embed_batch) job.tenant_id video_id d.embedding_batch_size
        (chunk tr.content)
  map_err (wrap "worker: insert chunks") (insert_chunks chunks)

-- The end of `run` before the summary.
unfoldable pub complete : Job → String → M (Unit {0})
unfolding update_status Videos.update_status
complete job video_id = do
  map_err (wrap "worker: complete job")
      (update_status job.id job.tenant_id JobStatus.completed Stage.completed none)
  map_err (wrap "worker: complete video")
      (Videos.update_status video_id job.tenant_id VideoStatus.completed)

-- `run`.
unfoldable pub run : Deps → Job → M (Unit {0})
unfolding prepare extract_transcript store_chunks complete generate_summary
run d job = do
  video_id ← prepare job
  tr ← extract_transcript d job video_id
  store_chunks d job video_id tr
  complete job video_id
  generate_summary d job video_id tr

-- `sanitizeError`, of an error that is not nil.
unfoldable pub sanitize_error : Err → String
unfolding error_text
sanitize_error e = let msg = error_text e in if str_eq msg "" then "worker: job failed" else msg

-- `fail`.
unfoldable pub fail : Job → Err → M (Unit {0})
unfolding update_status Videos.fail_by_job_id sanitize_error
fail job cause w =
    (do
      logged (
          update_status job.id job.tenant_id JobStatus.failed w.stage (some (sanitize_error cause)))
      logged (Videos.fail_by_job_id job.id job.tenant_id))
      w

-- `ProcessJob` after the pipeline, and after the loading of the job.
abbrev pub ended : Job → Result (Unit {0}) × World → Result (Unit {0}) × World
ended job (ok _, w) = (ok tt, w)
ended job (err e, w) = fail job e w

abbrev pub loaded : Deps → Result Job × World → Result (Unit {0}) × World
loaded d (ok job, w) = ended job (run d job (record w { stage = job.stage }))
loaded d (err _, w) = (ok tt, w)

-- `ProcessJob`.
unfoldable pub process_job : Deps → String → M (Unit {0})
unfolding run fail get_by_id_all_tenants
process_job d job_id w = loaded d (get_by_id_all_tenants job_id w)
