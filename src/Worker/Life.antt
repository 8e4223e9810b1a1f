-- ===== src/Worker/Life.antt =====
-- `ProcessJob` and the table of jobs, whatever fails on the way.
use text.Mathlib.TextEquality.{eq_iff}
use learn_rag.Common.{ℕ, ◌≡◌, refl, ◌∙◌, arith, true, false, not, String, Option, none, some, List}
use learn_rag.Result.{Result, ok, err}
use learn_rag.Model.{Job, JobStatus, Stage, Transcript}
use learn_rag.Database.{World}
use learn_rag.Database.Rows.{select_one-passes, select_all-update_other}
use learn_rag.Database.Table.{select_all}
use learn_rag.Queries.Jobs.{is_job, is_pending, moved}
use learn_rag.Repo.Jobs.{get_by_id_all_tenants}
use learn_rag.Repo.JobsKept.{OnJobs}
use learn_rag.Repo.Lifecycle.{JobsAreSound, update_status-Keeps}
use learn_rag.Repo.Loading.{has_id, get_by_id_all_tenants-Outcome, get_by_id_all_tenants-Keeps}
use learn_rag.Repo.Moves.{moved_jobs, update_status-OnJobs}
use learn_rag.Worker.Calls.{generate_summary-Keeps}
use learn_rag.Worker.Pipeline.{Deps, run, ended, loaded, process_job, generate_summary}
use learn_rag.Worker.Steps.{Moves, run-Keeps, fail-Keeps}

-- Every change of status keeps it.
pub always-Moves :
    (Q : List Job → Type 0)
    → ((id tenant_id : String) (status : JobStatus) (stage : Stage) (message : Option String)
          (now : ℕ) (jobs : List Job)
        → is_pending status ≡ false
        → Q jobs
        → Q (moved_jobs id tenant_id status stage message now jobs))
    → (job : Job) → Moves Q job
always-Moves Q kept job =
    let own =
      λ (status : JobStatus) (stage : Stage) (message : Option String)
          (h : is_pending status ≡ false).
        update_status-OnJobs job.id job.tenant_id status stage message Q
          (λ now jobs q. kept job.id job.tenant_id status stage message now jobs h q) in
    record {
      stages = λ stage. own JobStatus.processing stage none refl;
      completes = own JobStatus.completed Stage.completed none refl;
      fails = λ stage message. own JobStatus.failed stage (some message) refl;
    }

abbrev Anything : List Job → Type 0
Anything _ = Unit {0}

any-Moves : (job : Job) → Moves Anything job
any-Moves = always-Moves Anything (λ id tenant_id status stage message now jobs h _. tt)

module _ (Q : List Job → Type 0) (d : Deps) where
  ended_keeps :
      (job : Job)
      → Moves Q job
      → (r : Result (Unit {0}) × World) → OnJobs Q r.1.db
      → OnJobs Q (ended job r).1.db
  ended_keeps job moves (ok _, w) q = q
  ended_keeps job moves (err e, w) q = (fail-Keeps Q job moves e).keeps w q

  loaded_keeps :
      (r : Result Job × World)
      → ((job : Job) → r.0 ≡ ok job → Moves Q job)
      → OnJobs Q r.1.db
      → OnJobs Q (loaded d r).1.db
  loaded_keeps (ok job, w) moves q =
      ended_keeps job (moves job refl) (run d job (record w { stage = job.stage }))
        ((run-Keeps Q job (moves job refl) d).keeps (record w { stage = job.stage }) q)
  loaded_keeps (err e, w) moves q = q

  pub process_job_keeps :
      (job_id : String) (w : World)
      → ((job : Job) → (get_by_id_all_tenants job_id w).0 ≡ ok job → Moves Q job)
      → OnJobs Q w.db
      → OnJobs Q (process_job d job_id w).1.db
  unfolding process_job
  process_job_keeps job_id w moves q =
      loaded_keeps (get_by_id_all_tenants job_id w) moves
        ((get_by_id_all_tenants-Keeps {P = OnJobs Q} job_id).keeps w q)

ended_env : (job : Job) (r : Result (Unit {0}) × World) → (ended job r).1.env ≡ r.1.env
ended_env job (ok _, w) = refl
ended_env job (err e, w) = (fail-Keeps Anything job (any-Moves job) e).same_env w

loaded_env : (d : Deps) (r : Result Job × World) → (loaded d r).1.env ≡ r.1.env
loaded_env d (ok job, w) =
    let from : World = record w { stage = job.stage } in
    ended_env job (run d job from) ∙ (run-Keeps Anything job (any-Moves job) d).same_env from
loaded_env d (err e, w) = refl

pub process_job-env :
    (d : Deps) (job_id : String) (w : World) → (process_job d job_id w).1.env ≡ w.env
unfolding process_job
process_job-env d job_id w =
    loaded_env d (get_by_id_all_tenants job_id w)
    ∙ (get_by_id_all_tenants-Keeps {P = OnJobs Anything} job_id).same_env w

-- A job that is loaded has the id that was asked for.
loaded-id :
    (job_id : String) (w : World) (job : Job)
    → (get_by_id_all_tenants job_id w).0 ≡ ok job
    → job.id ≡ job_id
loaded-id job_id w job h =
    let w' = (get_by_id_all_tenants job_id w).1 in
    let found = (get_by_id_all_tenants-Outcome job_id).holds w job w' (ground arith) in
    (eq_iff job.id job_id).0 (select_one-passes (has_id job_id) w.db.jobs found.0)

-- ProcessJob, whatever the storage, the providers and the database answer, keeps the jobs sound: every pending job
-- has no times and no error, every job being processed a start time, every completed one an end time and
-- no error, and every failed one an end time and an error message.
pub process_job-IsSound :
    (d : Deps) (job_id : String) (w : World)
    → JobsAreSound w.db
    → JobsAreSound (process_job d job_id w).1.db
process_job-IsSound d job_id w = process_job_keeps _ d job_id w λ job h. record {
  stages = λ stage. update_status-Keeps job.id job.tenant_id JobStatus.processing stage none tt;
  completes =
      update_status-Keeps job.id job.tenant_id JobStatus.completed Stage.completed none refl;
  fails = λ stage message.
      update_status-Keeps job.id job.tenant_id JobStatus.failed stage (some message) refl;
}

abbrev pub other_jobs : String → List Job → List Job
other_jobs job_id jobs = select_all (λ j. not (has_id job_id j)) jobs

-- ProcessJob, whatever fails, leaves every job with another id as it was.
pub process_job-others :
    (d : Deps) (job_id : String) (w : World)
    → other_jobs job_id (process_job d job_id w).1.db.jobs ≡ other_jobs job_id w.db.jobs
process_job-others d job_id w =
    process_job_keeps (λ jobs. other_jobs job_id jobs ≡ other_jobs job_id w.db.jobs) d job_id w
      (λ job h.
        let own = λ (status : JobStatus) (stage : Stage) (message : Option String).
          update_status-OnJobs job.id job.tenant_id status stage message
            (λ jobs. other_jobs job_id jobs ≡ other_jobs job_id w.db.jobs)
            (λ now jobs same.
              select_all-update_other (λ (j : Job). not (has_id job_id j))
                (is_job job.id job.tenant_id) (moved status stage message now) jobs
                (is_own job.id job.tenant_id (loaded-id job_id w job h))
                (is_own job.id job.tenant_id (loaded-id job_id w job h))
              ∙ same) in
        record {
          stages = λ stage. own JobStatus.processing stage none;
          completes = own JobStatus.completed Stage.completed none;
          fails = λ stage message. own JobStatus.failed stage (some message);
        })
      refl
  where
    is_own :
        (id tenant_id : String)
        → id ≡ job_id
        → (j : Job) → is_job id tenant_id j ≡ true
        → not (has_id job_id j) ≡ false
    is_own id tenant_id same j own = ground (arith, eq_iff j.id id, eq_iff j.id job_id)

-- generateSummary, whether it succeeds, fails or cannot store its outcome, changes no job.
pub generate_summary-jobs :
    (d : Deps) (job : Job) (video_id : String) (t : Transcript) (w : World)
    → (generate_summary d job video_id t w).1.db.jobs ≡ w.db.jobs
generate_summary-jobs d job video_id t w =
    (generate_summary-Keeps (λ jobs. jobs ≡ w.db.jobs) d job video_id t).keeps w refl
