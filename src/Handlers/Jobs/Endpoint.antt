-- ===== src/Handlers/Jobs/Endpoint.antt =====
-- POST /jobs as a client sees it: success, failure, and a file key that is used twice.
use mathlib.Core.Path.{subst}
use learn_rag.Common.{ℕ, suc, String, ◌≡◌, ◌≢◌, refl, sym, ap, Option, none, some, arith}
use learn_rag.Errors.{Err}
use learn_rag.Result.{Result, ok, err}
use learn_rag.Model.{AuditLog}
use learn_rag.Database.{Db, World, exec, with_tenant_tx, new_uuid, time_now}
use learn_rag.Database.Laws.{with_tenant_tx-atomic}
use learn_rag.Database.Outcome.{Outcome, weaken, with_tenant_tx-Outcome, exec-Outcome}
use learn_rag.Handlers.{
  audited, Identity, Response, json, error_json, write_error, respond, insert_audit,
  insert_audit_log, audit_row, validated, Handler,
}
use learn_rag.Handlers.Jobs.{
  CreateJobRequest, JobResponse, validate_create_job, create_body, create_job_handler,
}
use learn_rag.Handlers.Jobs.Create.{Created, create_body-Outcome}
use learn_rag.Queries.Laws.{Untouched}

insert_audit_log-Untouched :
    (row : AuditLog) (w : World) (db : Db) {a : AuditLog} {db' : Db}
    → insert_audit_log row w db ≡ ok (a, db')
    → Untouched db db'
unfolding insert_audit_log
insert_audit_log-Untouched row w db h = ground arith

audit_tx-Untouched :
    (tenant_id : String) (row : AuditLog) (w : World) (r : Result AuditLog × World)
    → with_tenant_tx tenant_id (exec (insert_audit_log row)) w ≡ r
    → Untouched w.db r.1.db
audit_tx-Untouched tenant_id row w (ok a, w') h =
    let all = with_tenant_tx-Outcome tenant_id (exec-Outcome (insert_audit_log row)) in
    let (begun, done, (env, db), (ran, _), (_, db')) = all.holds w a w' h in
    let kept =
      insert_audit_log-Untouched row (record begun { calls = suc begun.calls }) begun.db ran in
    (ground arith, ground arith)
audit_tx-Untouched tenant_id row w (err e, w') h =
    let same = with_tenant_tx-atomic tenant_id _ w h in (ground arith, ground arith)

-- An audit record changes neither table, whether it is written or not.
pub insert_audit-Untouched :
    (identity : Identity) (action : String) (object_id : Option String) (w : World)
    → Untouched w.db (insert_audit identity action object_id w).1.db
unfolding insert_audit new_uuid time_now
insert_audit-Untouched identity action object_id w =
    audit_tx-Untouched identity.tenant_id
      (audit_row identity action object_id (w.env.uuid w.minted) (w.env.clock w.reads))
      (record w { reads = suc w.reads; minted = suc w.minted }) _ refl

create_tx-Outcome :
    (identity : Identity) (req : CreateJobRequest)
    → Outcome
        (with_tenant_tx identity.tenant_id (create_body identity.tenant_id req))
        (Created identity.tenant_id req)
create_tx-Outcome identity req =
    weaken (with_tenant_tx-Outcome identity.tenant_id (create_body-Outcome identity.tenant_id req))
      (λ w a w'
          (
            begun,
            done,
            (env, db),
            (intent, c, id, n, t, now, chosen, issued, before, found, is_job, jobs, intents),
            (_, db'),
          ).
        (
          intent,
          c,
          id,
          n,
          t,
          now,
          ground arith,
          issued,
          ground arith,
          found,
          is_job,
          ground arith,
          ground arith,
        ))

pub audited-json :
    {A : Type 0} (status : ℕ) (body : A) (r : Result AuditLog × World) {s : ℕ} {b : A} {w' : World}
    → audited status body r ≡ (json s b, w')
    → (s ≡ status) × (b ≡ body) × (w' ≡ r.1)
audited-json status body r h = (ground arith, ground arith, ground arith)

pub respond_json :
    {A B : Type 0} (f : A → World → Response B × World) (r : Result A × World) {s : ℕ} {b : B}
    {w' : World}
    → respond f r ≡ (json s b, w')
    → (a : A) × (between : World) × (r ≡ (ok a, between)) × (f a between ≡ (json s b, w'))
unfolding write_error
respond_json f (ok a, between) h = (a, between, refl, h)
respond_json f (err e, between) h = cc

validated_json :
    {A : Type 0} (found : Option Err) (k : Handler A) (w : World) {s : ℕ} {b : A} {w' : World}
    → validated found k w ≡ (json s b, w')
    → (found ≡ none) × (k w ≡ (json s b, w'))
unfolding write_error
validated_json none k w h = (refl, h)
validated_json (some e) k w h = cc

Created-quiet :
    (tenant_id : String) (req : CreateJobRequest) (w : World) (made : JobResponse) (done : World)
    (body : JobResponse) (w' : World)
    → Created tenant_id req w made done
    → body ≡ made
    → w'.db.jobs ≡ done.db.jobs
    → w'.db.upload_intents ≡ done.db.upload_intents
    → Created tenant_id req w body w'
Created-quiet tenant_id req w made done body w'
      (intent, c, id, n, t, now, chosen, issued, before, found, is_job, jobs, intents) same
      kept_jobs kept_intents =
    (
      intent,
      c,
      id,
      n,
      t,
      now,
      chosen,
      issued,
      before,
      found,
      ground arith,
      ground arith,
      ground arith,
    )

respond_error :
    {A B : Type 0} (f : A → World → Response B × World) (r : Result A × World) {s : ℕ}
    {c m : String} {w' : World}
    → respond f r ≡ (error_json s c m, w')
    → ((a : A) (v : World) → (f a v).0 ≢ error_json s c m)
    → (e : Err) × (r ≡ (err e, w'))
unfolding write_error
respond_error f (ok a, between) h never = elim (never a between (ap (λ p. p.0) h)) [ ]
respond_error f (err e, between) h never = (e, ground arith)

validated_error :
    {A : Type 0} (found : Option Err) (k : Handler A) (w : World) {s : ℕ} {c m : String}
    {w' : World}
    → validated found k w ≡ (error_json s c m, w')
    → (k w ≡ (error_json s c m, w') → w'.db ≡ w.db)
    → w'.db ≡ w.db
unfolding write_error
validated_error none k w h rest = rest h
validated_error (some e) k w h rest = ground arith

audited-never :
    {A : Type 0} (status : ℕ) (body : A) (r : Result AuditLog × World) {s : ℕ} {c m : String}
    → (audited status body r).0 ≢ error_json s c m
audited-never status body r h = cc

-- When the endpoint answers with a job, the request was valid, the status is 201, the tenant had an
-- upload intent for the file key that was issued and, at some reading of the clock, not expired, and
-- whose content type is allowed; the job answered is pending and queued, with the request's fields and the
-- content type's kind; it is the one row added to the jobs; and the issued intents of the tenant and
-- the file key are now consumed, the others as they were.
pub create_job-success :
    (identity : Identity) (req : CreateJobRequest) (w : World) {status : ℕ} {body : JobResponse}
    {w' : World}
    → create_job_handler identity req w ≡ (json status body, w')
    → (validate_create_job req ≡ none) × (status ≡ 201) × Created identity.tenant_id req w body w'
unfolding create_job_handler
create_job-success identity req w {body} {w'} h =
    let (valid, rest) = validated_json (validate_create_job req) _ w h in
    let (made, done, ran, last) = respond_json _ _ rest in
    let (status_is, body_is, after) =
      audited-json 201 made (insert_audit identity "job.create" (some made.job.id) done) last in
    let created = (create_tx-Outcome identity req).holds w made done ran in
    let quiet = insert_audit-Untouched identity "job.create" (some made.job.id) done in
    let (kept_jobs, kept_intents) =
      subst (λ (v : World). Untouched done.db v.db) (sym after) quiet in
    (
      valid,
      status_is,
      Created-quiet identity.tenant_id req w made done body w' created body_is kept_jobs
          kept_intents,
    )

-- A response that is not a job leaves every table as it was.
pub create_job-failure :
    (identity : Identity) (req : CreateJobRequest) (w : World) {status : ℕ} {code message : String}
    {w' : World}
    → create_job_handler identity req w ≡ (error_json status code message, w')
    → w'.db ≡ w.db
unfolding create_job_handler
create_job-failure identity req w h = validated_error (validate_create_job req) _ w h λ rest.
    let (e, failed) = respond_error _ _ rest (λ body v.
      audited-never 201 body (insert_audit identity "job.create" (some body.job.id) v)) in
    with_tenant_tx-atomic identity.tenant_id (create_body identity.tenant_id req) w failed
