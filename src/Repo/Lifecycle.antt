-- ===== src/Repo/Lifecycle.antt =====
-- What the API and the worker do to the table of jobs over time (internal/database/repo/jobs.go,
-- internal/httpapi/handlers/job.go, and the calls of `UpdateStatus` in internal/worker/processor.go).
use learn_rag.Common.{
  ℕ, String, ◌≡◌, refl, ◌∙◌, Bool, true, false, Option, none, some, List, [], ◌∷◌, arith, All,
  is_some, if◌then◌else◌,
}
use learn_rag.Errors.{api, err_not_found, is_no_rows}
use learn_rag.Result.{Result, ok, err}
use learn_rag.Model.{Job, JobStatus, Stage}
use learn_rag.Database.{Db, World, exec}
use learn_rag.Database.Keeps.{
  Keeps, then-Keeps, return-Keeps, map_err-Keeps, exec-Keeps, with_tenant_tx-Keeps,
}
use learn_rag.Database.Table.{update}
use learn_rag.Queries.Jobs.{
  claimed, retried, moved, now_of, claim_next_pending_job, retry_job, update_job_status, updated,
}
use learn_rag.Repo.{map_no_rows}
use learn_rag.Repo.Jobs.{update_status, retry, claim_next_pending, claimed_or_none}

-- What a job's status says of its times and its error.
abbrev Sound : JobStatus → Job → Type 0
Sound JobStatus.pending j =
    (j.started_at ≡ none) × (j.finished_at ≡ none) × (j.error_message ≡ none)
Sound JobStatus.processing j = is_some j.started_at ≡ true
Sound JobStatus.completed j = (is_some j.finished_at ≡ true) × (j.error_message ≡ none)
Sound JobStatus.failed j = (is_some j.finished_at ≡ true) × (is_some j.error_message ≡ true)

abbrev pub IsSound : Job → Type 0
IsSound j = Sound j.status j

abbrev pub JobsAreSound : Db → Type 0
JobsAreSound db = All IsSound db.jobs

-- The changes of status that the worker asks for: a stage of the work, its end, a failure.
abbrev pub IsMove : JobStatus → Option String → Type 0
IsMove JobStatus.pending message = ⊥
IsMove JobStatus.processing message = Unit {0}
IsMove JobStatus.completed message = message ≡ none
IsMove JobStatus.failed message = is_some message ≡ true

pub All-update :
    {R : Type 0} (P : R → Type 0) (test : R → Bool) (change : R → R) (rows : List R)
    → ((r : R) → test r ≡ true → P r → P (change r))
    → All P rows
    → All P (update test change rows)
unfolding update
All-update P test change [] kept all = tt
All-update P test change (r ∷ rows) kept (p, all) =
    (head (test r) refl, All-update P test change rows kept all)
  where
    head : (b : Bool) → test r ≡ b → P (if b then change r else r)
    head true e = kept r e p
    head false e = p

updated-kept :
    (o : Option Job) (change : Job → Job) (test : Job → Job → Bool) (db : Db) (a : Job) (db' : Db)
    → ((j k : Job) → test j k ≡ true → IsSound k → IsSound (change k))
    → updated o change test db ≡ ok (a, db')
    → JobsAreSound db
    → JobsAreSound db'
updated-kept (some j) change test db a db' kept h all =
    let table : db'.jobs ≡ update (test j) change db.jobs = ground arith in
    rw table (All-update IsSound (test j) change db.jobs (kept j) all)
updated-kept none change test db a db' kept h all = cc

claimed-IsSound : (now : ℕ) (j : Job) → IsSound (claimed now j)
claimed-IsSound now j = ground arith

moved-IsSound :
    (status : JobStatus) (stage : Stage) (message : Option String) (now : ℕ) (j : Job)
    → IsMove status message
    → IsSound (moved status stage message now j)
moved-IsSound JobStatus.pending stage message now j h = absurd h
moved-IsSound JobStatus.processing stage message now j h = ground arith
moved-IsSound JobStatus.completed stage message now j h = (refl, h)
moved-IsSound JobStatus.failed stage message now j h = (refl, h)

pub claim_next_pending-Keeps : Keeps JobsAreSound claim_next_pending
unfolding claim_next_pending claim_next_pending_job is_no_rows
claim_next_pending-Keeps =
    let inner : Keeps JobsAreSound (exec claim_next_pending_job) =
      exec-Keeps claim_next_pending_job λ w db a db' h all.
        updated-kept _ (claimed (now_of w)) _ db a db' (λ j k _ _. claimed-IsSound (now_of w) k) h
          all in
    record {
      keeps = λ w p. claimed_or_none-keeps _ (inner.keeps w p);
      same_env = λ w. claimed_or_none_env _ ∙ inner.same_env w;
    }
  where
    claimed_or_none-keeps :
        (r : Result Job × World) → JobsAreSound r.1.db → JobsAreSound (claimed_or_none r).1.db
    claimed_or_none-keeps (ok j, w) p = p
    claimed_or_none-keeps (err e, w) p = p

    claimed_or_none_env : (r : Result Job × World) → (claimed_or_none r).1.env ≡ r.1.env
    claimed_or_none_env (ok j, w) = refl
    claimed_or_none_env (err e, w) = refl

pub retry-Keeps : (id tenant_id : String) → Keeps JobsAreSound (retry id tenant_id)
unfolding retry retry_job
retry-Keeps id tenant_id = with_tenant_tx-Keeps tenant_id (
    then-Keeps
      (map_err-Keeps (map_no_rows (api err_not_found)) (
        exec-Keeps (retry_job id tenant_id) λ w db a db' h all.
          updated-kept _ (retried (now_of w)) _ db a db' (λ j k _ _. (refl, refl, refl)) h all))
      (return-Keeps {a = tt}))

pub update_status-Keeps :
    (id tenant_id : String) (status : JobStatus) (stage : Stage) (message : Option String)
    → IsMove status message
    → Keeps JobsAreSound (update_status id tenant_id status stage message)
unfolding update_status update_job_status
update_status-Keeps id tenant_id status stage message move = with_tenant_tx-Keeps tenant_id (
    then-Keeps
      (exec-Keeps (update_job_status id tenant_id status stage message) λ w db a db' h all.
        updated-kept _ (moved status stage message (now_of w)) _ db a db'
          (λ j k _ _. moved-IsSound status stage message (now_of w) k move) h all)
      (return-Keeps {a = tt}))
