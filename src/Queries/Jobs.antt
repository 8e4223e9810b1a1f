-- ===== src/Queries/Jobs.antt =====
-- internal/database/queries/jobs.sql.go.
use text.Mathlib.Text.{◌==◌ as str_eq}
use learn_rag.Common.{
  ℕ, ◌+◌, String, Bool, true, false, not, ◌&&◌, ◌||◌, Option, none, some, List, [], ◌∷◌, ◌++◌,
  if◌then◌else◌, leb,
}
use learn_rag.Errors.{no_rows}
use learn_rag.Common.Int.{ℤ}
use learn_rag.Result.{Result, ok, err}
use learn_rag.Model.{Job, JobStatus, Stage}
use learn_rag.Database.{Db, World, Statement}
use learn_rag.Database.Table.{
  select_one, select_all, update, exists, order_by, first_by, count_rows,
}
use learn_rag.Queries.{one, page_of, unique_violation}
use mathlib.Core.List.{reverse}

abbrev pub status_text : JobStatus → String
status_text JobStatus.pending = "pending"
status_text JobStatus.processing = "processing"
status_text JobStatus.completed = "completed"
status_text JobStatus.failed = "failed"

abbrev pub is_pending : JobStatus → Bool
is_pending JobStatus.pending = true
is_pending _ = false

abbrev pub is_processing : JobStatus → Bool
is_processing JobStatus.processing = true
is_processing _ = false

abbrev pub is_failed : JobStatus → Bool
is_failed JobStatus.failed = true
is_failed _ = false

-- `status IN ('completed', 'failed')`.
abbrev pub is_final : JobStatus → Bool
is_final JobStatus.completed = true
is_final JobStatus.failed = true
is_final _ = false

-- `WHERE id = $1 AND tenant_id = $2`.
abbrev pub is_job : String → String → Job → Bool
is_job id tenant_id j = str_eq j.id id && str_eq j.tenant_id tenant_id

-- `COALESCE(started_at, t)`.
abbrev pub coalesce : {A : Type 0} → Option A → Option A → Option A
coalesce (some a) t = some a
coalesce none t = t

-- `now()` in a statement.
abbrev pub now_of : World → ℕ
now_of w = w.env.clock w.reads

-- The values that a claim sets; `updated_at` is set by a trigger.
abbrev pub claimed : ℕ → Job → Job
claimed now j = record j {
  status = JobStatus.processing;
  stage = Stage.downloading;
  started_at = coalesce j.started_at (some now);
  updated_at = now;
}

-- The rows that a claim chooses from: pending, and not locked by another session.
abbrev pub is_claimable : World → Job → Bool
is_claimable w j = is_pending j.status && not (w.env.locked w.calls j.id)

-- `UPDATE jobs SET … WHERE … RETURNING …`: the row that is found, changed, and the table with every
-- row changed that passes the test.
abbrev pub updated : Option Job → (Job → Job) → (Job → Job → Bool) → Db → Result (Job × Db)
updated (some j) change test db = ok (change j, record db { jobs = update (test j) change db.jobs })
updated none change test db = err no_rows

-- The oldest of the claimable rows.
unfoldable pub next_pending : World → Db → Option Job
next_pending w db = first_by (λ j. j.created_at) (select_all (is_claimable w) db.jobs)

-- `ClaimNextPendingJob`.
unfoldable pub claim_next_pending_job : Statement Job
unfolding next_pending
claim_next_pending_job w db =
    updated (next_pending w db) (claimed (now_of w)) (λ j k. str_eq k.id j.id) db

abbrev status_is : Option String → Job → Bool
status_is none j = true
status_is (some s) j = str_eq (status_text j.status) s

-- `WHERE tenant_id = $1 AND ($2::text IS NULL OR status = $2)`.
abbrev pub is_listed : String → Option String → Job → Bool
is_listed tenant_id status j = str_eq j.tenant_id tenant_id && status_is status j

-- `CountJobs`.
unfoldable pub count_jobs : String → Option String → Statement ℕ
count_jobs tenant_id status w db =
    ok (count_rows (select_all (is_listed tenant_id status) db.jobs), db)

abbrev same_intent : Option String → Option String → Bool
same_intent (some a) (some b) = str_eq a b
same_intent _ _ = false

-- The primary key and the UNIQUE columns file_key and upload_intent_id.
abbrev pub conflicts : Job → Job → Bool
conflicts new old =
    str_eq old.id new.id
    || str_eq old.file_key new.file_key
    || same_intent old.upload_intent_id new.upload_intent_id

-- `CreateJob`.
unfoldable pub create_job : Job → Statement Job
create_job j w db =
    if exists (conflicts j) db.jobs
    then err unique_violation
    else ok (j, record db { jobs = db.jobs ++ j ∷ [] })

-- `GetJobByID`.
unfoldable pub get_job_by_id : String → String → Statement Job
get_job_by_id id tenant_id w db = one (select_one (is_job id tenant_id) db.jobs) db

-- `GetJobByIDAllTenants`.
unfoldable pub get_job_by_id_all_tenants : String → Statement Job
get_job_by_id_all_tenants id w db = one (select_one (λ j. str_eq j.id id) db.jobs) db

-- `ListJobs`, newest first.
unfoldable pub list_jobs : String → Option String → ℤ → ℕ → Statement (List Job)
list_jobs tenant_id status offset limit w db =
    let rows =
      reverse (order_by (λ j. j.created_at) (select_all (is_listed tenant_id status) db.jobs)) in
    page_of offset limit rows db

abbrev finished_by : ℕ → Job → Bool
finished_by limit j = elim j.finished_at [ none ↦ false | some t ↦ leb t limit ]

abbrev finished_time : Job → ℕ
finished_time j = elim j.finished_at [ none ↦ 0 | some t ↦ t ]

-- `ListJobsForRetention`.
unfoldable pub list_jobs_for_retention : ℕ → Statement (List Job)
list_jobs_for_retention limit w db = ok (
  order_by finished_time (select_all (λ j. is_final j.status && finished_by limit j) db.jobs),
  db,
)

-- The values that a retry sets.
abbrev pub retried : ℕ → Job → Job
retried now j = record j {
  status = JobStatus.pending;
  stage = Stage.queued;
  error_message = none;
  retry_count = j.retry_count + 1;
  started_at = none;
  finished_at = none;
  updated_at = now;
}

-- `RetryJob`.
unfoldable pub retry_job : String → String → Statement Job
retry_job id tenant_id w db =
    let test = λ (j : Job). is_job id tenant_id j && is_failed j.status in
    updated (select_one test db.jobs) (retried (now_of w)) (λ _. test) db

-- The values that a change of status sets.
abbrev pub moved : JobStatus → Stage → Option String → ℕ → Job → Job
moved status stage error_message now j = record j {
  status = status;
  stage = stage;
  error_message = error_message;
  started_at = coalesce j.started_at (if is_processing status then some now else none);
  finished_at = if is_final status then some now else j.finished_at;
  updated_at = now;
}

-- `UpdateJobStatus`.
unfoldable pub update_job_status :
    String → String → JobStatus → Stage → Option String → Statement Job
update_job_status id tenant_id status stage error_message w db =
    updated (select_one (is_job id tenant_id) db.jobs) (moved status stage error_message (now_of w))
      (λ _. is_job id tenant_id) db
