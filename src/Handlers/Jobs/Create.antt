-- ===== src/Handlers/Jobs/Create.antt =====
-- What POST /jobs leaves in the tables, on success and on failure.
use learn_rag.Common.{
  ℕ, suc, ◌<◌, String, ◌≡◌, refl, true, ◌&&◌, Option, none, some, List, [], ◌∷◌, ◌++◌, arith, ltb,
  ltb→lt,
}
use learn_rag.Common.Text.{Text}
use learn_rag.Common.Assoc.{lookup}
use learn_rag.Errors.{api, err_not_found, err_upload_intent_consumed, err_expired_upload_intent}
use learn_rag.Model.{Job, Kind, UploadIntent, JobStatus, Stage}
use learn_rag.Database.{World}
use learn_rag.Database.Outcome.{
  Outcome, Quiet, weaken, bind-Outcome, then-Outcome, map_err-Outcome, return-Outcome,
  new_uuid-Outcome, time_now-Outcome, exec-Outcome, guard-Outcome,
}
use learn_rag.Database.Table.{select_one, update}
use learn_rag.Queries.Laws.{
  Untouched, ensure_segment_by_name-Untouched, attach_job_segment-Untouched, create_job-ok,
  list_names-ok, get_intent-ok, mark_intent-ok,
}
use learn_rag.Queries.Jobs.{create_job}
use learn_rag.Queries.Intents.{
  get_upload_intent_by_file_key_for_update, mark_upload_intent_consumed, is_issued, is_intent,
  spent,
}
use learn_rag.Queries.Segments.{
  ensure_segment_by_name, list_segment_names_by_job_id, attach_job_segment,
}
use learn_rag.Repo.{map_no_rows}
use learn_rag.Repo.Jobs.{attach_each}
use learn_rag.Handlers.{ContentTypeConfig, allowed_content_types}
use learn_rag.Handlers.Jobs.{
  CreateJobRequest, new_segment, JobResponse, check_intent, kind_of, ensure_each, new_job,
  insert_job, create_body,
}

abbrev Kept : World → World → Type 0
Kept w w' = (w'.env ≡ w.env) × Untouched w.db w'.db

ensure_each-Untouched :
    (tenant_id : String) (names : List Text)
    → Outcome (ensure_each tenant_id names) (λ w ids w'. Kept w w')
unfolding ensure_each
ensure_each-Untouched tenant_id [] = weaken return-Outcome (λ w a w' r. ground arith)
ensure_each-Untouched tenant_id (name ∷ names) =
    weaken
      (bind-Outcome new_uuid-Outcome λ id. bind-Outcome time_now-Outcome λ now.
        bind-Outcome (exec-Outcome (ensure_segment_by_name (new_segment id tenant_id name now)))
          λ seg.
            bind-Outcome (ensure_each-Untouched tenant_id names)
              λ ids. return-Outcome {x = seg.id ∷ ids})
      (λ w a w' (id, w₁, r₁, (now, w₂, r₂, (seg, w₃, (ran, env), (ids, w₄, r₄, r₅)))).
        let head =
          ensure_segment_by_name-Untouched (new_segment id tenant_id name now)
            (record w₂ { calls = suc w₂.calls }) w₂.db ran in
        ground arith)

attach_each-Untouched :
    (job_id tenant_id : String) (ids : List String)
    → Outcome (attach_each job_id tenant_id ids) (λ w u w'. Kept w w')
unfolding attach_each
attach_each-Untouched job_id tenant_id [] = weaken return-Outcome (λ w a w' r. ground arith)
attach_each-Untouched job_id tenant_id (sid ∷ ids) =
    weaken
      (then-Outcome
        (exec-Outcome (
          attach_job_segment
            (record { owner_id = job_id; segment_id = sid; tenant_id = tenant_id })))
        (attach_each-Untouched job_id tenant_id ids))
      (λ w a w' (_, between, (ran, env), rest).
        let head = attach_job_segment-Untouched _ (record w { calls = suc w.calls }) w.db ran in
        ground arith)

-- The job that a client is to get for a request.
abbrev pub requested_job : String → String → UploadIntent → CreateJobRequest → Kind → ℕ → Job
requested_job id tenant_id intent req kind now = record {
  id = id;
  tenant_id = tenant_id;
  upload_intent_id = some intent.id;
  file_key = req.file_key;
  title = req.title;
  kind = kind;
  status = JobStatus.pending;
  stage = Stage.queued;
  error_message = none;
  retry_count = 0;
  started_at = none;
  finished_at = none;
  created_at = now;
  updated_at = now;
}

-- What the transaction's body has done when it succeeds.
abbrev pub Created : String → CreateJobRequest → World → JobResponse → World → Type 0
Created tenant_id req w body w' =
    (intent : UploadIntent) × (content_type : ContentTypeConfig) × (id : String) × (expiry_read
      consumed_at created_at : ℕ)
    × (select_one (is_intent req.file_key tenant_id) w.db.upload_intents ≡ some intent)
    × (is_issued intent.status ≡ true)
    × (w.env.clock expiry_read < intent.expires_at)
    × (lookup intent.content_type allowed_content_types ≡ some content_type)
    × (body.job ≡ requested_job id tenant_id intent req content_type.kind created_at)
    × (w'.db.jobs ≡ w.db.jobs ++ body.job ∷ [])
    × (w'.db.upload_intents
        ≡ update (λ i. is_intent req.file_key tenant_id i && is_issued i.status) (spent consumed_at)
            w.db.upload_intents)

insert_job-Outcome :
    (tenant_id : String) (intent : UploadIntent) (req : CreateJobRequest) (kind : Kind)
    (ids : List String)
    → Outcome (insert_job tenant_id intent req kind ids) (λ w body w'.
      (id : String) × (created_at : ℕ) × (body.job
        ≡ new_job id tenant_id intent req kind created_at)
      × (w'.db.jobs ≡ w.db.jobs ++ body.job ∷ [])
      × (w'.db.upload_intents ≡ w.db.upload_intents))
unfolding insert_job new_job
insert_job-Outcome tenant_id intent req kind ids =
    weaken
      (bind-Outcome time_now-Outcome λ now. bind-Outcome new_uuid-Outcome λ id.
        bind-Outcome (exec-Outcome (create_job (new_job id tenant_id intent req kind now))) λ job.
          then-Outcome (attach_each-Untouched job.id tenant_id ids) (
            bind-Outcome (exec-Outcome (list_segment_names_by_job_id job.id tenant_id))
              λ names. return-Outcome {x = record { job = job; segments = names }}))
      (λ w a w'
          (
            now,
            w₁,
            (at, r₁),
            (
              id,
              w₂,
              r₂,
              (job, w₃, (ran, env), (_, w₄, kept, (names, w₅, (listed, _), (same, r₆)))),
            ),
          ).
        let (job_is, table, intents) =
          create_job-ok (new_job id tenant_id intent req kind now)
            (record w₂ { calls = suc w₂.calls }) w₂.db ran in
        let quiet =
          list_names-ok job.id tenant_id (record w₄ { calls = suc w₄.calls }) w₄.db listed in
        (id, now, ground arith, ground arith, ground arith))

kind_of-Outcome :
    (found : Option ContentTypeConfig)
    → Outcome
        (kind_of found)
        (λ w kind w'. (c : ContentTypeConfig) × (found ≡ some c) × (kind ≡ c.kind) × Quiet w w')
kind_of-Outcome (some c) = record { holds = λ w a w' h. (c, refl, ground arith, ground arith) }
kind_of-Outcome none = record { holds = λ w a w' h. cc }

check_intent-Outcome :
    (intent : UploadIntent)
    → Outcome (check_intent intent) (λ w u w'.
      (n : ℕ) × (is_issued intent.status ≡ true) × (w.env.clock n < intent.expires_at) × Quiet w w')
check_intent-Outcome intent =
    weaken
      (then-Outcome (guard-Outcome (is_issued intent.status) (api err_upload_intent_consumed)) (
        bind-Outcome time_now-Outcome
          λ now. guard-Outcome (ltb now intent.expires_at) (api err_expired_upload_intent)))
      (λ w a w' (_, w₁, (issued, r₁), (now, w₂, (at, r₂), (before, r₃))).
        let less = ltb→lt now intent.expires_at before in
        (w₁.reads, issued, ground arith, ground arith))

pub create_body-Outcome :
    (tenant_id : String) (req : CreateJobRequest)
    → Outcome (create_body tenant_id req) (Created tenant_id req)
unfolding create_body
create_body-Outcome tenant_id req =
    weaken
      (bind-Outcome
        (map_err-Outcome (map_no_rows (api err_not_found))
          (exec-Outcome (get_upload_intent_by_file_key_for_update req.file_key tenant_id)))
        λ intent. then-Outcome (check_intent-Outcome intent) (
          then-Outcome (exec-Outcome (mark_upload_intent_consumed req.file_key tenant_id)) (
            bind-Outcome (kind_of-Outcome (lookup intent.content_type allowed_content_types))
              λ kind.
                bind-Outcome (ensure_each-Untouched tenant_id req.segments)
                  λ ids. insert_job-Outcome tenant_id intent req kind ids)))
      (λ w a w'
          (
            intent,
            w₁,
            (got, env₁),
            (
              _,
              w₂,
              (n, issued, before, r₂),
              (
                _,
                w₃,
                (marked, env₃),
                (
                  kind,
                  w₄,
                  (c, found, is_kind, r₄),
                  (ids, w₅, (env₅, (jobs₅, intents₅)), (id, created_at, job_is, jobs₆, intents₆)),
                ),
              ),
            ),
          ).
        let (chosen, same) =
          get_intent-ok req.file_key tenant_id (record w { calls = suc w.calls }) w.db got in
        let (jobs₃, intents₃) =
          mark_intent-ok req.file_key tenant_id (record w₂ { calls = suc w₂.calls }) w₂.db marked in
        (
          intent,
          c,
          id,
          n,
          w₂.env.clock w₂.reads,
          created_at,
          chosen,
          issued,
          ground arith,
          found,
          ground arith,
          ground arith,
          ground arith,
        ))
