-- ===== src/Handlers/Jobs/Retry.antt =====
-- What GET /jobs/:id and POST /jobs/:id/retry answer and leave.
use mathlib.Core.Path.{subst}
use text.Mathlib.Text.{◌==◌ as str_eq}
use text.Mathlib.TextEquality.{eq_iff}
use learn_rag.Common.{
  none, ◌+◌, ℕ, suc, String, ◌≡◌, refl, sym, ap, ◌∙◌, Bool, true, false, ◌&&◌, some, arith,
}
use learn_rag.Errors.{api, err_not_found, err_job_not_failed}
use learn_rag.Model.{Job, JobStatus, Stage}
use learn_rag.Database.{Db, World}
use learn_rag.Database.Outcome.{
  Outcome, weaken, bind-Outcome, then-Outcome, map_err-Outcome, with_tenant_tx-Outcome,
  return-Outcome, exec-Outcome, guard-Outcome,
}
use learn_rag.Database.Table.{select_one, update}
use learn_rag.Database.Rows.{select_one-update, select_one-passes}
use learn_rag.Queries.Jobs.{get_job_by_id, retry_job, retried, is_job, is_failed, now_of}
use learn_rag.Queries.Segments.{list_segment_names_by_job_id}
use learn_rag.Repo.{map_no_rows}
use learn_rag.Repo.Claim.{updated_ok}
use learn_rag.Repo.Jobs.{get_by_id, retry}
use learn_rag.Repo.Segments.{list_names_by_job_id}
use learn_rag.Handlers.{Identity, json, insert_audit}
use learn_rag.Handlers.Jobs.{JobResponse, get_job, retry_body, retry_job_handler}
use learn_rag.Queries.Laws.{one_ok, list_names-ok, Untouched}
use learn_rag.Handlers.Jobs.Endpoint.{respond_json, audited-json, insert_audit-Untouched}

both : (a b : Bool) → a && b ≡ true → (a ≡ true) × (b ≡ true)
both true b h = (refl, h)
both false b h = cc

-- A load finds the row and leaves the tables.
pub get_by_id-Outcome :
    (id tenant_id : String)
    → Outcome
        (get_by_id id tenant_id)
        (λ w job w'. (select_one (is_job id tenant_id) w.db.jobs ≡ some job) × (w'.db ≡ w.db))
unfolding get_by_id get_job_by_id
get_by_id-Outcome id tenant_id =
    weaken
      (map_err-Outcome (map_no_rows (api err_not_found))
        (with_tenant_tx-Outcome tenant_id (exec-Outcome (get_job_by_id id tenant_id))))
      (λ w job w' (begun, done, (_, db), (ran, _), (_, db')).
        let (found, same) = one_ok (select_one (is_job id tenant_id) begun.db.jobs) begun.db ran in
        (subst (λ d. select_one (is_job id tenant_id) d.jobs ≡ some job) db found, db' ∙ same ∙ db))

pub list_names-Outcome :
    (id tenant_id : String)
    → Outcome (list_names_by_job_id id tenant_id) (λ w names w'. w'.db ≡ w.db)
unfolding list_names_by_job_id
list_names-Outcome id tenant_id =
    weaken
      (with_tenant_tx-Outcome tenant_id (exec-Outcome (list_segment_names_by_job_id id tenant_id)))
      (λ w names w' (begun, done, (_, db), (ran, _), (_, db')).
        db'
        ∙ list_names-ok id tenant_id (record begun { calls = suc begun.calls }) begun.db ran
        ∙ db)

-- The rows that a retry changes.
abbrev pub is_retryable : String → String → Job → Bool
is_retryable id tenant_id j = is_job id tenant_id j && is_failed j.status

retry-Outcome :
    (id tenant_id : String)
    → Outcome (retry id tenant_id) (λ w u w'.
      (now : ℕ) × (w'.db
        ≡ record w.db { jobs = update (is_retryable id tenant_id) (retried now) w.db.jobs }))
unfolding retry retry_job
retry-Outcome id tenant_id =
    weaken
      (with_tenant_tx-Outcome tenant_id (
        then-Outcome
          (map_err-Outcome (map_no_rows (api err_not_found))
            (exec-Outcome (retry_job id tenant_id)))
          (return-Outcome {x = tt})))
      (λ w u w' (begun, done, (_, db), (j, v, (ran, _), (_, (_, same))), (_, db')).
        let now = now_of begun in
        let (old, _, _, table) =
          updated_ok (select_one (is_retryable id tenant_id) begun.db.jobs) (retried now)
            (λ _. is_retryable id tenant_id) begun.db ran in
        (
          now,
          db'
              ∙ same
              ∙ table
              ∙ ap
                  (λ (d : Db). record d {
                    jobs = update (is_retryable id tenant_id) (retried now) d.jobs;
                  })
                  db,
        ))

-- The job that a client is to see after a retry.
abbrev pub after_retry : ℕ → Job → Job
after_retry now old = record old {
  status = JobStatus.pending;
  stage = Stage.queued;
  error_message = none;
  retry_count = old.retry_count + 1;
  started_at = none;
  finished_at = none;
  updated_at = now;
}

-- A retry that succeeds.
abbrev pub Retried : String → String → World → JobResponse → World → Type 0
Retried tenant_id job_id w body w' =
    (old : Job) × (now : ℕ) × (select_one (is_job job_id tenant_id) w.db.jobs ≡ some old)
    × (is_failed old.status ≡ true)
    × (body.job ≡ after_retry now old)
    × (w'.db.jobs ≡ update (is_retryable job_id tenant_id) (after_retry now) w.db.jobs)

retry_body-Outcome :
    (tenant_id job_id : String) → Outcome (retry_body tenant_id job_id) (Retried tenant_id job_id)
unfolding retry_body
retry_body-Outcome tenant_id job_id =
    weaken
      (bind-Outcome (get_by_id-Outcome job_id tenant_id) λ job.
        then-Outcome (guard-Outcome (is_failed job.status) (api err_job_not_failed)) (
          then-Outcome (retry-Outcome job_id tenant_id) (
            bind-Outcome (get_by_id-Outcome job_id tenant_id) λ again.
              bind-Outcome (list_names-Outcome job.id tenant_id)
                λ segments. return-Outcome {x = record { job = again; segments = segments }})))
      (λ w body w'
          (
            old,
            w₁,
            (found, db₁),
            (
              _,
              w₂,
              (failed, (_, db₂)),
              (_, w₃, (now, db₃), (again, w₄, (found', db₄), (names, w₅, db₅, (same, (_, db₆))))),
            ),
          ).
        let changed =
          select_one-update (is_job job_id tenant_id) (λ (j : Job). is_failed j.status)
            (retried now) w.db.jobs (λ r. refl) found failed in
        let before : w₂.db ≡ w.db = db₂ ∙ db₁ in
        let table : w₃.db.jobs ≡ update (is_retryable job_id tenant_id) (retried now) w.db.jobs =
          ap (λ (d : Db). d.jobs) db₃
          ∙ ap (λ (d : Db). update (is_retryable job_id tenant_id) (retried now) d.jobs) before in
        let after : w'.db.jobs ≡ w₃.db.jobs = ap (λ (d : Db). d.jobs) (db₆ ∙ db₅ ∙ db₄) in
        let found_again =
          subst (λ rows. select_one (is_job job_id tenant_id) rows ≡ some again) table found' in
        (old, now, found, failed, ground arith, after ∙ table))

-- The retry endpoint answers with a job only if the tenant has a job of that id that has failed; the answer is
-- 200 with that job pending and queued again, its retry count one up, its error and its times cleared, and
-- in the table only the tenant's failed rows of that id have changed, in that way.
pub retry_job-success :
    (identity : Identity) (job_id : String) (w : World) {status : ℕ} {body : JobResponse}
    {w' : World}
    → retry_job_handler identity job_id w ≡ (json status body, w')
    → (status ≡ 200) × Retried identity.tenant_id job_id w body w'
unfolding retry_job_handler
retry_job-success identity job_id w {body} {w'} h =
    let (made, done, ran, last) = respond_json _ _ h in
    let (status_is, body_is, after) =
      audited-json 200 made (insert_audit identity "job.retry" (some job_id) done) last in
    let (old, now, found, failed, job_is, table) =
      (retry_body-Outcome identity.tenant_id job_id).holds w made done ran in
    let quiet = insert_audit-Untouched identity "job.retry" (some job_id) done in
    let (kept, _) = subst (λ (v : World). Untouched done.db v.db) (sym after) quiet in
    (
      status_is,
      (old, now, found, failed, ap (λ (r : JobResponse). r.job) body_is ∙ job_is, kept ∙ table),
    )

-- The detail endpoint answers with a job only if it is of the caller's tenant and has the id that was
-- asked for; it is a row of the table as it was, and the tables do not change.
pub get_job-own :
    (identity : Identity) (job_id : String) (w : World) {status : ℕ} {body : JobResponse}
    {w' : World}
    → get_job identity job_id w ≡ (json status body, w')
    → (body.job.id ≡ job_id)
      × (body.job.tenant_id ≡ identity.tenant_id)
      × (select_one (is_job job_id identity.tenant_id) w.db.jobs ≡ some body.job)
      × (w'.db ≡ w.db)
unfolding get_job
get_job-own identity job_id w {status} {body} {w'} h =
    let (made, done, ran, last) = respond_json _ _ h in
    let all = bind-Outcome (get_by_id-Outcome job_id identity.tenant_id) λ job.
      bind-Outcome (list_names-Outcome job.id identity.tenant_id)
        λ segments. return-Outcome {x = record { job = job; segments = segments }} in
    let (job, w₁, (found, db₁), (names, w₂, db₂, (same, (_, db₃)))) = all.holds w made done ran in
    let passes = select_one-passes (is_job job_id identity.tenant_id) w.db.jobs found in
    let body_is : body ≡ made = ground arith in
    let world_is : w' ≡ done = ground arith in
    let job_is : job ≡ body.job = sym (ap (λ (r : JobResponse). r.job) (body_is ∙ same)) in
    let own =
      subst (λ j. select_one (is_job job_id identity.tenant_id) w.db.jobs ≡ some j) job_is found in
    let (same_id, same_tenant) =
      both (str_eq body.job.id job_id) (str_eq body.job.tenant_id identity.tenant_id)
        (select_one-passes (is_job job_id identity.tenant_id) w.db.jobs own) in
    (
      (eq_iff body.job.id job_id).0 same_id,
      (eq_iff body.job.tenant_id identity.tenant_id).0 same_tenant,
      own,
      ap (λ (v : World). v.db) world_is ∙ db₃ ∙ db₂ ∙ db₁,
    )
