-- ===== src/Worker/Steps.antt =====
-- What the pipeline of internal/worker/processor.go keeps of the table of jobs: it changes the table
-- by `UpdateStatus` alone, so that it keeps what these calls keep.
use learn_rag.Common.{refl, String, none, some, List, [], ◌∷◌}
use learn_rag.Common.Text.{Text}
use learn_rag.Errors.{Err, plain, wrap}
use learn_rag.Model.{Job, JobStatus, VideoStatus, Kind, Stage, Transcript}
use learn_rag.Database.Keeps.{
  Keeps, bind-Keeps, then-Keeps, return-Keeps, throw-Keeps, map_err-Keeps, new_uuid-Keeps,
  time_now-Keeps,
}
use learn_rag.Repo.Jobs.{update_status}
use learn_rag.Repo.JobsKept.{
  OnJobs, ensure_by_name-Keeps, attach_video_segments-Keeps, list_names_by_job_id-Keeps,
  create_video-Keeps, delete_by_job_id-Keeps, fail_by_job_id-Keeps, update_video-Keeps,
  save_transcript-Keeps, insert_chunks-Keeps,
}
use learn_rag.Chunker.{chunk}
use learn_rag.Worker.Calls.{
  call-Keeps, logged-Keeps, check_file-Keeps, embed_sections-Keeps, generate_summary-Keeps,
}
use learn_rag.Worker.Pipeline.{
  Deps, set_stage, ensure_names, copy_job_segments, keep_transcript, transcribed, parsed, by_kind,
  extract_transcript, prepare, new_video, parsed_transcript, store_chunks, complete, run, fail,
  sanitize_error,
}

-- The three kinds of change that the worker makes to its job keep Q.
pub record Moves (Q : List Job → Type 0) (job : Job) : Type 0 where
  pub stages :
      (stage : Stage)
      → Keeps (OnJobs Q) (update_status job.id job.tenant_id JobStatus.processing stage none)
  pub completes :
      Keeps (OnJobs Q) (update_status job.id job.tenant_id JobStatus.completed Stage.completed none)
  pub fails :
      (stage : Stage) (message : String)
      → Keeps (OnJobs Q) (update_status job.id job.tenant_id JobStatus.failed stage (some message))

module _ (Q : List Job → Type 0) (job : Job) (moves : Moves Q job) where
  pub set_stage-Keeps : (stage : Stage) → Keeps (OnJobs Q) (set_stage job stage)
  unfolding set_stage
  set_stage-Keeps stage =
      then-Keeps (map_err-Keeps (wrap "worker: update stage") (moves.stages stage))
        (record { keeps = λ w p. p; same_env = λ w. refl })

  ensure_names-Keeps :
      (tenant_id : String) (names : List Text) → Keeps (OnJobs Q) (ensure_names tenant_id names)
  unfolding ensure_names
  ensure_names-Keeps tenant_id [] = return-Keeps {a = []}
  ensure_names-Keeps tenant_id (name ∷ names) =
      bind-Keeps (ensure_by_name-Keeps Q tenant_id name) λ seg.
        bind-Keeps (ensure_names-Keeps tenant_id names) λ ids. return-Keeps {a = seg.id ∷ ids}

  pub prepare-Keeps : Keeps (OnJobs Q) (prepare job)
  unfolding prepare copy_job_segments
  prepare-Keeps =
      then-Keeps
        (map_err-Keeps (wrap "worker: cleanup existing video")
          (delete_by_job_id-Keeps Q job.id job.tenant_id))
        (bind-Keeps time_now-Keeps λ now. bind-Keeps new_uuid-Keeps λ id.
          then-Keeps
            (map_err-Keeps (wrap "worker: create video")
              (create_video-Keeps Q (new_video job id now)))
            (then-Keeps
              (map_err-Keeps (wrap "worker: copy job segments") (
                bind-Keeps (list_names_by_job_id-Keeps Q job.id job.tenant_id) λ names.
                  bind-Keeps (ensure_names-Keeps job.tenant_id names)
                    λ ids. attach_video_segments-Keeps Q id job.tenant_id ids))
              (return-Keeps {a = id})))

  keep_transcript-Keeps :
      (video_id : String) (t : Transcript) → Keeps (OnJobs Q) (keep_transcript job video_id t)
  unfolding keep_transcript
  keep_transcript-Keeps video_id t = bind-Keeps time_now-Keeps λ now.
      let kept : Transcript = record t {
        tenant_id = job.tenant_id;
        video_id = video_id;
        created_at = now;
      } in
      then-Keeps (map_err-Keeps (wrap "worker: upsert transcript") (save_transcript-Keeps Q kept))
        (return-Keeps {a = kept})

  transcribed-Keeps : (d : Deps) (video_id : String) → Keeps (OnJobs Q) (transcribed d job video_id)
  unfolding transcribed
  transcribed-Keeps d video_id = then-Keeps (set_stage-Keeps Stage.transcribing) (
      bind-Keeps (map_err-Keeps (wrap "worker: transcribe") (call-Keeps d.transcribe tt))
        λ t. keep_transcript-Keeps video_id t)

  by_kind-Keeps :
      (d : Deps) (video_id : String) (kind : Kind) → Keeps (OnJobs Q) (by_kind d job video_id kind)
  unfolding by_kind transcribed parsed
  by_kind-Keeps d video_id Kind.video = transcribed-Keeps d video_id
  by_kind-Keeps d video_id Kind.audio = transcribed-Keeps d video_id
  by_kind-Keeps d video_id Kind.pdf = then-Keeps (set_stage-Keeps Stage.parsing) (
      bind-Keeps (map_err-Keeps (wrap "worker: detect content type") (call-Keeps d.detect tt)) λ mt.
        bind-Keeps (map_err-Keeps (wrap "worker: parse") (call-Keeps d.parse mt))
          λ text. keep_transcript-Keeps video_id (parsed_transcript text))
  by_kind-Keeps d video_id (Kind.unknown k) = throw-Keeps (wrap "unsupported job kind" (plain k))

  pub extract_transcript-Keeps :
      (d : Deps) (video_id : String) → Keeps (OnJobs Q) (extract_transcript d job video_id)
  unfolding extract_transcript
  extract_transcript-Keeps d video_id =
      then-Keeps (map_err-Keeps (wrap "worker: create temp dir") (call-Keeps d.temp_dir tt)) (
        then-Keeps (set_stage-Keeps Stage.downloading) (
          then-Keeps (map_err-Keeps (wrap "worker: download") (call-Keeps d.download job.file_key))
            (then-Keeps (check_file-Keeps d job) (by_kind-Keeps d video_id job.kind))))

  pub store_chunks-Keeps :
      (d : Deps) (video_id : String) (t : Transcript)
      → Keeps (OnJobs Q) (store_chunks d job video_id t)
  unfolding store_chunks
  store_chunks-Keeps d video_id t = then-Keeps (set_stage-Keeps Stage.chunking) (
      then-Keeps (set_stage-Keeps Stage.embedding) (
        bind-Keeps
          (embed_sections-Keeps d.embed_batch job.tenant_id video_id d.embedding_batch_size
            (chunk t.content))
          λ chunks. map_err-Keeps (wrap "worker: insert chunks") (insert_chunks-Keeps Q chunks)))

  complete-Keeps : (video_id : String) → Keeps (OnJobs Q) (complete job video_id)
  unfolding complete
  complete-Keeps video_id =
      then-Keeps (map_err-Keeps (wrap "worker: complete job") moves.completes) (
        map_err-Keeps (wrap "worker: complete video")
          (update_video-Keeps Q video_id job.tenant_id VideoStatus.completed))

  pub run-Keeps : (d : Deps) → Keeps (OnJobs Q) (run d job)
  unfolding run
  run-Keeps d = bind-Keeps prepare-Keeps λ video_id.
      bind-Keeps (extract_transcript-Keeps d video_id) λ t.
        then-Keeps (store_chunks-Keeps d video_id t)
          (then-Keeps (complete-Keeps video_id) (generate_summary-Keeps Q d job video_id t))

  pub fail-Keeps : (e : Err) → Keeps (OnJobs Q) (fail job e)
  unfolding fail
  fail-Keeps e =
      let both = λ (stage : Stage).
        then-Keeps (logged-Keeps (moves.fails stage (sanitize_error e)))
          (logged-Keeps (fail_by_job_id-Keeps Q job.id job.tenant_id)) in
      record { keeps = λ w p. (both w.stage).keeps w p; same_env = λ w. (both w.stage).same_env w }
