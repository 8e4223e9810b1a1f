-- ===== src/Handlers/Jobs/Examples.antt =====
-- A server with one issued upload intent, and what the endpoints do on it.
use learn_rag.Common.{
  ℕ, ◌≤◌, ◌≡◌, ◌≢◌, refl, String, Option, none, some, List, [], ◌∷◌, ◌==◌, if◌then◌else◌,
}
use learn_rag.Common.Text.{codes}
use learn_rag.Common.Text.Space.{trim_by, space_len, space_len_rev}
use learn_rag.Common.Assoc.{lookup}
use learn_rag.Database.Sample.{empty_db, sample_env}
use learn_rag.Database.Table.{select_one, exists, update}
use learn_rag.Queries.Segments.{sort_names, names_of}
use learn_rag.Errors.{as_api, plain}
use learn_rag.Result.{ok, err}
use learn_rag.Model.{UploadIntent, IntentStatus, Job, JobStatus, Kind, Stage}
use learn_rag.Database.{World, with_tenant_tx, new_uuid}
use learn_rag.Handlers.{Identity, json, error_json}
use learn_rag.Handlers.Jobs.{CreateJobRequest, validate_create_job, create_job_handler, JobResponse}
use learn_rag.Database.{with_tenant_tx, new_uuid, ask}
use learn_rag.Errors.{plain, wrap}
use learn_rag.Result.{err}
use learn_rag.Handlers.Pages.{pagination, digits, pagination-bounds}
use learn_rag.Queries.Jobs.{retried, is_job}
use learn_rag.Handlers.Jobs.{retry_job_handler, get_job}
use learn_rag.Handlers.Jobs.History.{JobCall, creates, claims, fails, retries, run, run-IsSound}
use learn_rag.Handlers.Jobs.Retry.{Retried, retry_job-success, get_job-own}
use learn_rag.Repo.Lifecycle.{JobsAreSound}
use learn_rag.Handlers.Jobs.Create.{Created}
use learn_rag.Handlers.Jobs.Endpoint.{create_job-success, create_job-failure}
use learn_rag.Handlers.Jobs.Once.{create_job-once}

abbrev intent : UploadIntent
intent = record {
  id = "i1";
  tenant_id = "t1";
  file_key = "t1/i1/f.mp4";
  content_type = "video/mp4";
  status = IntentStatus.issued;
  expires_at = 100;
  consumed_at = none;
  created_at = 1;
}

abbrev ids : ℕ → String
ids n = if n == 0 then "u0" else if n == 1 then "u1" else if n == 2 then "u2" else "u3"

-- Every call is answered, but the one with the given number, if any.
abbrev server : Option ℕ → World
server broken = record {
  env =
      sample_env 10 ids
        (λ n. elim broken [ none ↦ none | some k ↦ if n == k then some (plain "lost") else none ]);
  db = record empty_db { upload_intents = intent ∷ [] };
  reads = 0;
  minted = 0;
  calls = 0;
  stage = Stage.queued;
}

abbrev pub admin : Identity
admin = record { tenant_id = "t1"; api_key_id = "k1" }

abbrev request : CreateJobRequest
request = record {
  file_key = "t1/i1/f.mp4";
  title = codes "Algebra";
  segments = codes "week 1" ∷ [];
}

abbrev job : Job
job = record {
  id = "u1";
  tenant_id = "t1";
  upload_intent_id = some "i1";
  file_key = "t1/i1/f.mp4";
  title = codes "Algebra";
  kind = Kind.video;
  status = JobStatus.pending;
  stage = Stage.queued;
  error_message = none;
  retry_count = 0;
  started_at = none;
  finished_at = none;
  created_at = 12;
  updated_at = 12;
}

abbrev response : JobResponse
response = record { job = job; segments = codes "week 1" ∷ [] }

abbrev created : ℕ
created = 201

abbrev status_ok : ℕ
status_ok = 200

abbrev after : World
after = (create_job_handler admin request (server none)).1

answered : create_job_handler admin request (server none) ≡ (json 201 response, after)
unfolding create_job_handler trim_by space_len space_len_rev select_one lookup exists sort_names
    names_of
answered = refl

create_job-success_example :
    (validate_create_job request ≡ none)
    × (created ≡ 201)
    × Created "t1" request (server none) response after
create_job-success_example = create_job-success admin request (server none) answered

abbrev after_fault : World
after_fault = (create_job_handler admin request (server (some 5))).1

refused :
    create_job_handler admin request (server (some 5))
    ≡ (error_json 500 "internal_error" "Terjadi kesalahan internal.", after_fault)
unfolding create_job_handler trim_by space_len space_len_rev select_one lookup exists sort_names
    names_of as_api
refused = refl

create_job-failure_example : after_fault.db ≡ (server none).db
create_job-failure_example = create_job-failure admin request (server (some 5)) refused

create_job-once_example : (create_job_handler admin request after).0 ≢ json 201 response
create_job-once_example =
    create_job-once admin admin request request (server none) answered after refl refl refl

abbrev pub failed_job : Job
failed_job = record job {
  status = JobStatus.failed;
  stage = Stage.parsing;
  error_message = some "worker: parse: lost";
  started_at = some 13;
  finished_at = some 14;
}

abbrev pub server_with_job : World
server_with_job = record (server none) { db = record empty_db { jobs = failed_job ∷ [] } }

abbrev after_retry : World
after_retry = (retry_job_handler admin "u1" server_with_job).1

abbrev retry_response : JobResponse
retry_response = record { job = retried 10 failed_job; segments = [] }

retry_answered :
    retry_job_handler admin "u1" server_with_job ≡ (json 200 retry_response, after_retry)
unfolding retry_job_handler select_one update sort_names names_of
retry_answered = refl

retry_job-success_example :
    (status_ok ≡ 200) × Retried "t1" "u1" server_with_job retry_response after_retry
retry_job-success_example = retry_job-success admin "u1" server_with_job retry_answered

abbrev after_get : World
after_get = (get_job admin "u1" server_with_job).1

abbrev get_response : JobResponse
get_response = record { job = failed_job; segments = [] }

get_answered : get_job admin "u1" server_with_job ≡ (json 200 get_response, after_get)
unfolding get_job select_one sort_names names_of
get_answered = refl

get_job-own_example :
    (failed_job.id ≡ "u1")
    × (failed_job.tenant_id ≡ "t1")
    × (select_one (is_job "u1" "t1") server_with_job.db.jobs ≡ some failed_job)
    × (after_get.db ≡ server_with_job.db)
get_job-own_example = get_job-own admin "u1" server_with_job get_answered

abbrev history : List JobCall
history =
    creates admin request ∷ claims ∷ fails "u1" "t1" Stage.parsing "lost" ∷ retries admin "u1" ∷ []

run-IsSound_example : JobsAreSound (run history (server none)).db
run-IsSound_example = run-IsSound history (server none) tt

accepted : pagination (codes "3") (codes "500") ≡ ok (3, 100)
unfolding pagination digits
accepted = refl

pagination-bounds_example : (1 ≤ 3) × (1 ≤ 100) × (100 ≤ 100)
pagination-bounds_example = pagination-bounds (codes "3") (codes "500") 3 100 accepted

abbrev after_lost_commit : World
after_lost_commit = (with_tenant_tx "t1" new_uuid (server (some 2))).1

commit_lost :
    with_tenant_tx "t1" new_uuid (server (some 2))
    ≡ (err (wrap "database: commit tx" (plain "lost")), after_lost_commit)
unfolding with_tenant_tx ask new_uuid
commit_lost = refl
