-- ===== src/Repo/Moves.antt =====
-- `UpdateStatus` of internal/database/repo/jobs.go: what it does to the table of jobs.
use learn_rag.Common.{
  suc, ℕ, String, ◌≡◌, refl, sym, ◌∙◌, ap, arith, Bool, Option, none, some, List,
}
use learn_rag.Result.{Result, ok}
use learn_rag.Model.{Job, JobStatus, Stage}
use learn_rag.Database.{Db, World, ◌>>◌, and_then, return, exec}
use learn_rag.Database.Keeps.{Keeps, then-Keeps, return-Keeps, exec-Keeps, with_tenant_tx-Keeps}
use learn_rag.Database.Outcome.{
  Outcome, weaken, then-Outcome, return-Outcome, exec-Outcome, with_tenant_tx-Outcome,
}
use learn_rag.Database.Success.{Answers, exec_done, with_tenant_tx_done}
use learn_rag.Database.Table.{select_one, update}
use learn_rag.Queries.Jobs.{is_job, moved, now_of, update_job_status, updated}
use learn_rag.Repo.Jobs.{update_status}
use learn_rag.Repo.JobsKept.{OnJobs}

-- The jobs after a change of status at the given time.
abbrev pub moved_jobs :
    String → String → JobStatus → Stage → Option String → ℕ → List Job → List Job
moved_jobs id tenant_id status stage message now jobs =
    update (is_job id tenant_id) (moved status stage message now) jobs

updated_ok :
    (o : Option Job) (change : Job → Job) (test : Job → Job → Bool) (db : Db) (a : Job) (db' : Db)
    → updated o change test db ≡ ok (a, db')
    → (j : Job) × (o ≡ some j) × (db'.jobs ≡ update (test j) change db.jobs)
updated_ok (some j) change test db a db' h = (j, refl, ground arith)
updated_ok none change test db a db' h = cc

module _ (id tenant_id : String) (status : JobStatus) (stage : Stage)
    (message : Option String) where
  -- It keeps what the change of the row keeps.
  pub update_status-OnJobs :
      (Q : List Job → Type 0)
      → ((now : ℕ) (jobs : List Job)
          → Q jobs
          → Q (moved_jobs id tenant_id status stage message now jobs))
      → Keeps (OnJobs Q) (update_status id tenant_id status stage message)
  unfolding update_status update_job_status
  update_status-OnJobs Q kept = with_tenant_tx-Keeps tenant_id (
      then-Keeps
        (exec-Keeps (update_job_status id tenant_id status stage message) λ w db a db' h q.
          let (j, found, after) = updated_ok _ _ (λ _. is_job id tenant_id) db a db' h in
          rw after (kept (now_of w) db.jobs q))
        (return-Keeps {a = tt}))

  -- When it succeeds, the row was there and has changed.
  pub update_status-Outcome : Outcome (update_status id tenant_id status stage message) (λ w a w'.
      (now : ℕ) × (j : Job) × (select_one (is_job id tenant_id) w.db.jobs ≡ some j)
      × (w'.db.jobs ≡ moved_jobs id tenant_id status stage message now w.db.jobs))
  unfolding update_status update_job_status
  update_status-Outcome =
      weaken
        (with_tenant_tx-Outcome tenant_id (
          then-Outcome (exec-Outcome (update_job_status id tenant_id status stage message))
            (return-Outcome {x = tt})))
        (λ w a w' (begun, done, (_, here), (b, between, (ran, _), (_, (_, later))), (_, last)).
          let (j, found, after) =
            updated_ok _ _ (λ _. is_job id tenant_id) begun.db b between.db ran in
          let jobs = λ (db : Db). db.jobs in
          let rows = λ (js : List Job). select_one (is_job id tenant_id) js in
          (
            now_of begun,
            j,
            ap (λ db. rows (jobs db)) (sym here) ∙ found,
            ap jobs last
                ∙ ap jobs later
                ∙ after
                ∙ ap (λ db. moved_jobs id tenant_id status stage message (now_of begun) (jobs db))
                    here,
          ))

  -- When the server answers and the row is there, it succeeds.
  pub update_status_done :
      (w : World) {j : Job}
      → Answers w.env
      → select_one (is_job id tenant_id) w.db.jobs ≡ some j
      → (now : ℕ) × ((update_status id tenant_id status stage message w).1.db.jobs
          ≡ moved_jobs id tenant_id status stage message now w.db.jobs)
  unfolding update_status update_job_status
  update_status_done w {j} answers found =
      let begun : World = record w { calls = suc (suc w.calls) } in
      let now = now_of w in
      let changed : Db = record w.db {
        jobs = moved_jobs id tenant_id status stage message now w.db.jobs;
      } in
      let ran =
        exec_done (update_job_status id tenant_id status stage message) begun
          {a = moved status stage message now j} {db = changed} answers
          (ap (λ o. updated o (moved status stage message now) (λ _. is_job id tenant_id) w.db)
            found) in
      let whole =
        with_tenant_tx_done tenant_id
          (exec (update_job_status id tenant_id status stage message) >> return tt) w answers
          (ap (and_then (λ _. return tt)) ran) answers in
      (now, ap (λ (r : Result (Unit {0}) × World). r.1.db.jobs) whole)
