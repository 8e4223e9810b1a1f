-- ===== src/Handlers/Jobs.antt =====
-- internal/httpapi/handlers/job.go: POST /jobs, GET /jobs/:id and POST /jobs/:id/retry.
pub mod Create
pub mod Endpoint
pub mod Once
pub mod Soundness
pub mod History
pub mod Retry
pub mod Listing
mod Examples
mod ListingExamples
use learn_rag.Common.{
  ℕ, String, ltb, leb, Bool, true, false, ◌||◌, not, if◌then◌else◌, Option, none, some, List, [],
  ◌∷◌, length,
}
use learn_rag.Common.Text.{Text, is_empty}
use learn_rag.Common.Text.Space.{trim_space}
use learn_rag.Common.Assoc.{lookup}
use learn_rag.Errors.{
  Err, api, err_invalid_request, err_invalid_file_key, err_not_found, err_upload_intent_consumed,
  err_expired_upload_intent, err_unsupported_content_type, err_job_not_failed,
}
use learn_rag.Result.{Result, ok, err}
use learn_rag.Model.{Job, JobStatus, Stage, Kind, UploadIntent, SegmentLink, Segment, AuditLog}
use learn_rag.Database.{
  World, M, ◌>>=◌, ◌>>◌, and_then, return, throw, map_err, exec, with_tenant_tx, new_uuid, time_now,
}
use learn_rag.Queries.Jobs.{create_job, is_failed}
use learn_rag.Queries.Intents.{
  get_upload_intent_by_file_key_for_update, mark_upload_intent_consumed, is_issued,
}
use learn_rag.Queries.Segments.{ensure_segment_by_name, list_segment_names_by_job_id}
use learn_rag.Repo.{map_no_rows}
use learn_rag.Handlers.Pages.{pagination}
use learn_rag.Repo.Jobs.{list, count, attach_each, get_by_id, retry}
use learn_rag.Repo.Segments.{list_names_by_job_id}
use learn_rag.Handlers.{
  audited, Identity, Response, json, Handler, write_error, respond, validated, insert_audit,
  ContentTypeConfig, allowed_content_types,
}
use text.Mathlib.Text.{◌==◌ as str_eq}

-- `CreateJobRequest`.
pub record CreateJobRequest : Type 0 where
  pub file_key : String
  pub title : Text
  pub segments : List Text

-- `JobResponse`: the fields of the job, and its segment names.
pub record JobResponse : Type 0 where
  pub job : Job
  pub segments : List Text

abbrev pub max_job_title_length : ℕ
max_job_title_length = 255

abbrev pub max_segments_count : ℕ
max_segments_count = 50

abbrev pub max_segment_name_length : ℕ
max_segment_name_length = 100

-- The loop over the segment names.
unfoldable pub name_too_long : List Text → Bool
name_too_long [] = false
name_too_long (s ∷ names) =
    let later = name_too_long names in
    if ltb max_segment_name_length (length s) then true else later

-- `validateCreateJob`: the error, if any.
unfoldable pub validate_create_job : CreateJobRequest → Option Err
unfolding trim_space name_too_long
validate_create_job req =
    let title = trim_space req.title in
    if str_eq req.file_key ""
    then some (api err_invalid_file_key)
    else if is_empty title || ltb max_job_title_length (length title)
    then some (api err_invalid_request)
    else if ltb max_segments_count (length req.segments)
    then some (api err_invalid_request)
    else if name_too_long req.segments
    then some (api err_invalid_request)
    else none

-- The two conditions on the intent.
abbrev pub check_intent : UploadIntent → M (Unit {0})
check_intent intent = do
  if is_issued intent.status then return tt else throw (api err_upload_intent_consumed)
  now ← time_now
  if ltb now intent.expires_at then return tt else throw (api err_expired_upload_intent)

-- The kind of the intent's content type.
abbrev pub kind_of : Option ContentTypeConfig → M Kind
kind_of (some content_type) = return content_type.kind
kind_of none = throw (api err_unsupported_content_type)

abbrev pub new_segment : String → String → Text → ℕ → Segment
new_segment id tenant_id name now = record {
  id = id;
  tenant_id = tenant_id;
  name = name;
  created_at = now;
}

-- The loop that ensures the segments and collects their ids.
unfoldable pub ensure_each : String → List Text → M (List String)
unfolding exec ensure_segment_by_name new_uuid time_now
ensure_each tenant_id [] = return []
ensure_each tenant_id (name ∷ names) = do
  id ← new_uuid
  now ← time_now
  seg ← exec (ensure_segment_by_name (new_segment id tenant_id name now))
  ids ← ensure_each tenant_id names
  return (seg.id ∷ ids)

-- The row that the endpoint inserts.
unfoldable pub new_job : String → String → UploadIntent → CreateJobRequest → Kind → ℕ → Job
new_job id tenant_id intent req kind now = record {
  id = id;
  tenant_id = tenant_id;
  upload_intent_id = some intent.id;
  file_key = req.file_key;
  title = req.title;
  kind = kind;
  status = JobStatus.pending;
  stage = Stage.queued;
  error_message = none;
  retry_count = 0;
  started_at = none;
  finished_at = none;
  created_at = now;
  updated_at = now;
}

-- The end of the transaction's body: the job with its segments.
unfoldable pub insert_job :
    String → UploadIntent → CreateJobRequest → Kind → List String → M JobResponse
unfolding exec create_job attach_each list_segment_names_by_job_id new_uuid time_now new_job
insert_job tenant_id intent req kind segment_ids = do
  now ← time_now
  id ← new_uuid
  job ← exec (create_job (new_job id tenant_id intent req kind now))
  attach_each job.id tenant_id segment_ids
  names ← exec (list_segment_names_by_job_id job.id tenant_id)
  return (record { job = job; segments = names })

-- The body of the transaction.
unfoldable pub create_body : String → CreateJobRequest → M JobResponse
unfolding exec get_upload_intent_by_file_key_for_update mark_upload_intent_consumed ensure_each
    insert_job map_no_rows
create_body tenant_id req = do
  intent ←
      map_err (map_no_rows (api err_not_found))
        (exec (get_upload_intent_by_file_key_for_update req.file_key tenant_id))
  check_intent intent
  exec (mark_upload_intent_consumed req.file_key tenant_id)
  kind ← kind_of (lookup intent.content_type allowed_content_types)
  segment_ids ← ensure_each tenant_id req.segments
  insert_job tenant_id intent req kind segment_ids

-- `CreateJob`, for a request that could be bound.
unfoldable pub create_job_handler : Identity → CreateJobRequest → Handler JobResponse
unfolding with_tenant_tx create_body insert_audit validate_create_job write_error
create_job_handler identity req = validated (validate_create_job req) λ w.
    respond (λ body w. audited 201 body (insert_audit identity "job.create" (some body.job.id) w))
      (with_tenant_tx identity.tenant_id (create_body identity.tenant_id req) w)

-- `GetJob`.
unfoldable pub get_job : Identity → String → Handler JobResponse
unfolding get_by_id list_names_by_job_id write_error
get_job identity job_id w =
    let tenant_id = identity.tenant_id in
    respond (λ body w. (json 200 body, w))
      ((do
        job ← get_by_id job_id tenant_id
        segments ← list_names_by_job_id job.id tenant_id
        return (record { job = job; segments = segments }))
        w)

-- The check between the load and the retry.
abbrev pub check_failed : Job → M (Unit {0})
check_failed job = if is_failed job.status then return tt else throw (api err_job_not_failed)

-- `RetryJob`, up to its audit record.
unfoldable pub retry_body : String → String → M JobResponse
unfolding get_by_id retry list_names_by_job_id
retry_body tenant_id job_id = do
  job ← get_by_id job_id tenant_id
  check_failed job
  retry job_id tenant_id
  retried ← get_by_id job_id tenant_id
  segments ← list_names_by_job_id job.id tenant_id
  return (record { job = retried; segments = segments })

-- `RetryJob`.
unfoldable pub retry_job_handler : Identity → String → Handler JobResponse
unfolding retry_body insert_audit write_error
retry_job_handler identity job_id w =
    respond (λ body w. audited 200 body (insert_audit identity "job.retry" (some job_id) w))
      (retry_body identity.tenant_id job_id w)

-- `ListJobsResponse`, with its `Meta`.
pub record ListJobsResponse : Type 0 where
  pub data_rows : List JobResponse
  pub page : ℕ
  pub limit : ℕ
  pub total : ℕ

-- The loop that adds the segment names.
unfoldable pub decorate : String → List Job → M (List JobResponse)
unfolding list_names_by_job_id
decorate tenant_id [] = return []
decorate tenant_id (job ∷ jobs) = do
  segments ← list_names_by_job_id job.id tenant_id
  rest ← decorate tenant_id jobs
  return (record { job = job; segments = segments } ∷ rest)

unfoldable pub list_body : String → String → ℕ × ℕ → M ListJobsResponse
unfolding list count decorate
list_body tenant_id status (page, limit) = do
  jobs ← list tenant_id status page limit
  total ← count tenant_id status
  rows ← decorate tenant_id jobs
  return (record { data_rows = rows; page = page; limit = limit; total = total })

-- The page and the limit, or the error that is answered.
abbrev pub with_pages : {A : Type 0} → Result (ℕ × ℕ) → (ℕ × ℕ → Handler A) → Handler A
with_pages (ok pages) k w = k pages w
with_pages (err e) k w = (write_error e, w)

-- `ListJobs`, of the query parameters.
unfoldable pub list_jobs_handler : Identity → String → Text → Text → Handler ListJobsResponse
unfolding list_body pagination write_error
list_jobs_handler identity status page_query limit_query =
    with_pages (pagination page_query limit_query) λ pages w.
      respond (λ body w. (json 200 body, w)) (list_body identity.tenant_id status pages w)
