-- ===== src/Repo/Jobs.antt =====
-- internal/database/repo/jobs.go.
use learn_rag.Common.{if◌then◌else◌, ℕ, String, Option, none, some, List, [], ◌∷◌, map}
use learn_rag.Errors.{api, err_not_found, is_no_rows}
use learn_rag.Result.{Result, ok, err}
use learn_rag.Model.{Job, JobStatus, Stage}
use learn_rag.Database.{World, M, ◌>>=◌, ◌>>◌, return, map_err, exec, with_tenant_tx}
use learn_rag.Queries.Segments.{attach_job_segment}
use learn_rag.Queries.Jobs.{
  create_job, list_jobs, count_jobs, get_job_by_id, update_job_status, retry_job,
  claim_next_pending_job, get_job_by_id_all_tenants, list_jobs_for_retention,
}
use learn_rag.Repo.{map_no_rows, optional_text, list_offset}

-- The loop over the segment ids.
unfoldable pub attach_each : String → String → List String → M (Unit {0})
unfolding exec attach_job_segment
attach_each job_id tenant_id [] = return tt
attach_each job_id tenant_id (sid ∷ segment_ids) = do
  exec (attach_job_segment (record { owner_id = job_id; segment_id = sid; tenant_id = tenant_id }))
  attach_each job_id tenant_id segment_ids

-- `Create`.
unfoldable pub create : Job → List String → M (Unit {0})
unfolding with_tenant_tx exec create_job attach_each
create job segment_ids =
    with_tenant_tx job.tenant_id
      (do exec (create_job job); attach_each job.id job.tenant_id segment_ids)

-- `List`; an empty status is no filter.
unfoldable pub list : String → String → ℕ → ℕ → M (List Job)
unfolding with_tenant_tx exec list_jobs list_offset
list tenant_id status page limit =
    with_tenant_tx tenant_id
      (exec (list_jobs tenant_id (optional_text status) (list_offset page limit) limit))

-- `Count`.
unfoldable pub count : String → String → M ℕ
unfolding with_tenant_tx exec count_jobs
count tenant_id status =
    with_tenant_tx tenant_id (exec (count_jobs tenant_id (optional_text status)))

-- `GetByID`.
unfoldable pub get_by_id : String → String → M Job
unfolding with_tenant_tx exec get_job_by_id map_no_rows
get_by_id id tenant_id =
    map_err (map_no_rows (api err_not_found))
      (with_tenant_tx tenant_id (exec (get_job_by_id id tenant_id)))

-- `UpdateStatus`.
unfoldable pub update_status : String → String → JobStatus → Stage → Option String → M (Unit {0})
unfolding with_tenant_tx exec update_job_status
update_status id tenant_id status stage error_message =
    with_tenant_tx tenant_id
      (do exec (update_job_status id tenant_id status stage error_message); return tt)

-- `Retry`.
unfoldable pub retry : String → String → M (Unit {0})
unfolding with_tenant_tx exec retry_job map_no_rows
retry id tenant_id =
    with_tenant_tx tenant_id
      (do map_err (map_no_rows (api err_not_found)) (exec (retry_job id tenant_id)); return tt)

-- What `ClaimNextPending` makes of its statement: no row is no job.
abbrev pub claimed_or_none : Result Job × World → Result (Option Job) × World
claimed_or_none (ok job, w) = (ok (some job), w)
claimed_or_none (err e, w) = ((if is_no_rows e then ok none else err e), w)

-- `ClaimNextPending`, outside any tenant's transaction.
unfoldable pub claim_next_pending : M (Option Job)
unfolding exec claim_next_pending_job is_no_rows
claim_next_pending w = claimed_or_none (exec claim_next_pending_job w)

-- `GetByIDAllTenants`.
unfoldable pub get_by_id_all_tenants : String → M Job
unfolding exec get_job_by_id_all_tenants map_no_rows
get_by_id_all_tenants id =
    map_err (map_no_rows (api err_not_found)) (exec (get_job_by_id_all_tenants id))

-- `ListForRetention`: the ids and the file keys.
unfoldable pub list_for_retention : ℕ → M (List (String × String))
unfolding exec list_jobs_for_retention
list_for_retention older_than = do
  rows ← exec (list_jobs_for_retention older_than)
  return (map (λ (j : Job). (j.id, j.file_key)) rows)
