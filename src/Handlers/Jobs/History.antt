-- ===== src/Handlers/Jobs/History.antt =====
-- The life of the jobs: any sequence of the calls with which the API (internal/httpapi/handlers)
-- and the worker (internal/worker) change them.
use learn_rag.Handlers.Jobs.Soundness.{create_job_handler_keeps, retry_job_handler_keeps}
use learn_rag.Common.{String, refl, none, some, List, [], ◌∷◌}
use learn_rag.Model.{JobStatus, Stage}
use learn_rag.Database.{World}
use learn_rag.Repo.Jobs.{update_status, claim_next_pending}
use learn_rag.Repo.Lifecycle.{JobsAreSound, update_status-Keeps, claim_next_pending-Keeps}
use learn_rag.Handlers.{Identity}
use learn_rag.Handlers.Jobs.{
  CreateJobRequest, validate_create_job, create_job_handler, retry_job_handler,
}

-- The worker's writes (`setStage`, the completion in `run`, `fail`) and its claim, and the endpoints that change jobs.
pub data JobCall : Type 0 where
  creates : Identity → CreateJobRequest → JobCall
  retries : Identity → String → JobCall
  claims : JobCall
  sets_stage : String → String → Stage → JobCall
  completes : String → String → JobCall
  fails : String → String → Stage → String → JobCall

-- What a call leaves, whatever it answers.
unfoldable pub step : JobCall → World → World
unfolding create_job_handler retry_job_handler claim_next_pending update_status
step (creates identity req) w = (create_job_handler identity req w).1
step (retries identity job_id) w = (retry_job_handler identity job_id w).1
step claims w = (claim_next_pending w).1
step (sets_stage id tenant_id stage) w =
    (update_status id tenant_id JobStatus.processing stage none w).1
step (completes id tenant_id) w =
    (update_status id tenant_id JobStatus.completed Stage.completed none w).1
step (fails id tenant_id stage message) w =
    (update_status id tenant_id JobStatus.failed stage (some message) w).1

unfoldable pub run : List JobCall → World → World
unfolding step
run [] w = w
run (call ∷ calls) w = run calls (step call w)

step_keeps : (call : JobCall) (w : World) → JobsAreSound w.db → JobsAreSound (step call w).db
unfolding step create_job_handler
step_keeps (creates identity req) w p =
    create_job_handler_keeps identity req (validate_create_job req) w p
step_keeps (retries identity job_id) w p = retry_job_handler_keeps identity job_id w p
step_keeps claims w p = claim_next_pending-Keeps.keeps w p
step_keeps (sets_stage id tenant_id stage) w p =
    (update_status-Keeps id tenant_id JobStatus.processing stage none tt).keeps w p
step_keeps (completes id tenant_id) w p =
    (update_status-Keeps id tenant_id JobStatus.completed Stage.completed none refl).keeps w p
step_keeps (fails id tenant_id stage message) w p =
    (update_status-Keeps id tenant_id JobStatus.failed stage (some message) refl).keeps w p

-- Whatever calls the API and the worker make, in whatever order and with whatever failures of the
-- database, starting from sound jobs: every pending job has no times and no error, every job being
-- processed has a start time, every completed one an end time and no error, and every failed one
-- an end time and an error message.
pub run-IsSound :
    (calls : List JobCall) (w : World) → JobsAreSound w.db → JobsAreSound (run calls w).db
unfolding run
run-IsSound [] w p = p
run-IsSound (call ∷ calls) w p = run-IsSound calls (step call w) (step_keeps call w p)
