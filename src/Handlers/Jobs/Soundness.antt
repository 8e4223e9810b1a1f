-- ===== src/Handlers/Jobs/Soundness.antt =====
-- The endpoints of jobs keep the table of jobs sound, statement by statement.
use learn_rag.Common.{
  ℕ, String, ◌≡◌, refl, ap, Option, none, some, List, [], ◌∷◌, ◌++◌, arith, All, ltb,
}
use learn_rag.Common.Text.{Text}
use learn_rag.Common.Assoc.{lookup}
use learn_rag.Errors.{
  Err, api, err_not_found, err_upload_intent_consumed, err_expired_upload_intent,
  err_unsupported_content_type, err_job_not_failed,
}
use learn_rag.Result.{Result, ok, err}
use learn_rag.Model.{UploadIntent, Kind, AuditLog}
use learn_rag.Database.{Db, World, with_tenant_tx}
use learn_rag.Database.Keeps.{
  Keeps, bind-Keeps, then-Keeps, return-Keeps, throw-Keeps, map_err-Keeps, new_uuid-Keeps,
  time_now-Keeps, guard-Keeps, exec-Keeps, with_tenant_tx-Keeps,
}
use learn_rag.Queries.Jobs.{create_job, get_job_by_id, is_failed}
use learn_rag.Queries.Intents.{
  get_upload_intent_by_file_key_for_update, mark_upload_intent_consumed, is_issued,
}
use learn_rag.Queries.Segments.{
  ensure_segment_by_name, list_segment_names_by_job_id, attach_job_segment,
}
use learn_rag.Repo.{map_no_rows}
use learn_rag.Repo.Jobs.{attach_each, get_by_id}
use learn_rag.Repo.Segments.{list_names_by_job_id}
use learn_rag.Repo.Lifecycle.{IsSound, JobsAreSound, retry-Keeps}
use learn_rag.Handlers.{
  audited, Identity, ContentTypeConfig, allowed_content_types, insert_audit, insert_audit_log,
  audit_row, validated, respond, Handler,
}
use learn_rag.Handlers.Jobs.{
  CreateJobRequest, kind_of, new_segment, ensure_each, new_job, insert_job, create_body, retry_body,
  retry_job_handler,
}
use learn_rag.Queries.Laws.{
  ensure_segment_by_name-Untouched, attach_job_segment-Untouched, create_job-ok, list_names-ok,
  get_intent-ok, mark_intent-ok, one_ok,
}

All-append :
    {A : Type 0} (P : A → Type 0) (xs : List A) {x : A} → All P xs → P x → All P (xs ++ x ∷ [])
All-append P [] all p = (p, tt)
All-append P (y ∷ xs) (q, all) p = (q, All-append P xs all p)

same_jobs :
    (before after : Db) → after.jobs ≡ before.jobs → JobsAreSound before → JobsAreSound after
same_jobs before after e all = rw e all

ensure_each-Keeps :
    (tenant_id : String) (names : List Text) → Keeps JobsAreSound (ensure_each tenant_id names)
unfolding ensure_each
ensure_each-Keeps tenant_id [] = return-Keeps {a = []}
ensure_each-Keeps tenant_id (name ∷ names) = bind-Keeps new_uuid-Keeps λ id.
    bind-Keeps time_now-Keeps λ now.
      bind-Keeps
        (exec-Keeps (ensure_segment_by_name (new_segment id tenant_id name now)) λ w db a db' h.
          same_jobs db db'
            (ensure_segment_by_name-Untouched (new_segment id tenant_id name now) w db h).0)
        λ seg. bind-Keeps (ensure_each-Keeps tenant_id names) λ ids. return-Keeps {a = seg.id ∷ ids}

attach_each-Keeps :
    (job_id tenant_id : String) (ids : List String)
    → Keeps JobsAreSound (attach_each job_id tenant_id ids)
unfolding attach_each
attach_each-Keeps job_id tenant_id [] = return-Keeps {a = tt}
attach_each-Keeps job_id tenant_id (sid ∷ ids) =
    then-Keeps
      (exec-Keeps
        (attach_job_segment (record { owner_id = job_id; segment_id = sid; tenant_id = tenant_id }))
        λ w db a db' h. same_jobs db db' (attach_job_segment-Untouched _ w db h).0)
      (attach_each-Keeps job_id tenant_id ids)

insert_job-Keeps :
    (tenant_id : String) (intent : UploadIntent) (req : CreateJobRequest) (kind : Kind)
    (ids : List String)
    → Keeps JobsAreSound (insert_job tenant_id intent req kind ids)
unfolding insert_job new_job
insert_job-Keeps tenant_id intent req kind ids = bind-Keeps time_now-Keeps λ now.
    bind-Keeps new_uuid-Keeps λ id.
      bind-Keeps
        (exec-Keeps (create_job (new_job id tenant_id intent req kind now)) λ w db a db' h all.
          let (job_is, table, _) =
            create_job-ok (new_job id tenant_id intent req kind now) w db h in
          rw (table, job_is) (All-append IsSound db.jobs all (new_job-IsSound id now)))
        λ job. then-Keeps (attach_each-Keeps job.id tenant_id ids) (
          bind-Keeps
            (exec-Keeps (list_segment_names_by_job_id job.id tenant_id) λ w db a db' h.
              same_jobs db db' (ap (λ (d : Db). d.jobs) (list_names-ok job.id tenant_id w db h)))
            λ names. return-Keeps {a = record { job = job; segments = names }})
  where
    new_job-IsSound : (id : String) (now : ℕ) → IsSound (new_job id tenant_id intent req kind now)
    new_job-IsSound id now = (refl, refl, refl)

kind_of-Keeps : (found : Option ContentTypeConfig) → Keeps JobsAreSound (kind_of found)
kind_of-Keeps (some c) = return-Keeps {a = c.kind}
kind_of-Keeps none = throw-Keeps (api err_unsupported_content_type)

create_body-Keeps :
    (tenant_id : String) (req : CreateJobRequest) → Keeps JobsAreSound (create_body tenant_id req)
unfolding create_body
create_body-Keeps tenant_id req =
    bind-Keeps
      (map_err-Keeps (map_no_rows (api err_not_found)) (
        exec-Keeps (get_upload_intent_by_file_key_for_update req.file_key tenant_id) λ w db a db' h.
          same_jobs db db'
            (ap (λ (d : Db). d.jobs) (get_intent-ok req.file_key tenant_id w db h).1)))
      λ intent.
        then-Keeps
          (then-Keeps (guard-Keeps (is_issued intent.status) (api err_upload_intent_consumed)) (
            bind-Keeps time_now-Keeps
              λ now. guard-Keeps (ltb now intent.expires_at) (api err_expired_upload_intent)))
          (then-Keeps
            (exec-Keeps (mark_upload_intent_consumed req.file_key tenant_id)
              λ w db a db' h. same_jobs db db' (mark_intent-ok req.file_key tenant_id w db h).0)
            (bind-Keeps (kind_of-Keeps (lookup intent.content_type allowed_content_types)) λ kind.
              bind-Keeps (ensure_each-Keeps tenant_id req.segments)
                λ ids. insert_job-Keeps tenant_id intent req kind ids))

insert_audit-Keeps :
    (identity : Identity) (action : String) (object_id : Option String)
    → Keeps JobsAreSound (insert_audit identity action object_id)
unfolding insert_audit insert_audit_log
insert_audit-Keeps identity action object_id = bind-Keeps new_uuid-Keeps λ id.
    bind-Keeps time_now-Keeps λ now. with_tenant_tx-Keeps identity.tenant_id (
      exec-Keeps (insert_audit_log (audit_row identity action object_id id now))
        λ w db a db' h all. ground arith)

respond_keeps :
    {A B : Type 0} (f : A → Handler B) (r : Result A × World)
    → ((a : A) (w : World) → JobsAreSound w.db → JobsAreSound (f a w).1.db)
    → JobsAreSound r.1.db
    → JobsAreSound (respond f r).1.db
respond_keeps f (ok a, w) next p = next a w p
respond_keeps f (err e, w) next p = p

audited_keeps :
    {A : Type 0} (status : ℕ) (body : A) (r : Result AuditLog × World)
    → JobsAreSound r.1.db
    → JobsAreSound (audited status body r).1.db
audited_keeps status body (_, w) p = p

get_by_id-Keeps : (id tenant_id : String) → Keeps JobsAreSound (get_by_id id tenant_id)
unfolding get_by_id get_job_by_id
get_by_id-Keeps id tenant_id = map_err-Keeps (map_no_rows (api err_not_found)) (
    with_tenant_tx-Keeps tenant_id (
      exec-Keeps (get_job_by_id id tenant_id)
        λ w db a db' h. same_jobs db db' (ap (λ (d : Db). d.jobs) (one_ok _ db h).1)))

list_names_by_job_id-Keeps :
    (id tenant_id : String) → Keeps JobsAreSound (list_names_by_job_id id tenant_id)
unfolding list_names_by_job_id
list_names_by_job_id-Keeps id tenant_id = with_tenant_tx-Keeps tenant_id (
    exec-Keeps (list_segment_names_by_job_id id tenant_id) λ w db a db' h.
      same_jobs db db' (ap (λ (d : Db). d.jobs) (list_names-ok id tenant_id w db h)))

retry_body-Keeps : (tenant_id job_id : String) → Keeps JobsAreSound (retry_body tenant_id job_id)
unfolding retry_body
retry_body-Keeps tenant_id job_id = bind-Keeps (get_by_id-Keeps job_id tenant_id) λ job.
    then-Keeps (guard-Keeps (is_failed job.status) (api err_job_not_failed)) (
      then-Keeps (retry-Keeps job_id tenant_id) (
        bind-Keeps (get_by_id-Keeps job_id tenant_id) λ retried.
          bind-Keeps (list_names_by_job_id-Keeps job.id tenant_id)
            λ segments. return-Keeps {a = record { job = retried; segments = segments }}))

pub create_job_handler_keeps :
    (identity : Identity) (req : CreateJobRequest) (found : Option Err) (w : World)
    → JobsAreSound w.db
    → JobsAreSound
        (validated found
          (λ w.
            respond
              (λ body w. audited 201 body (insert_audit identity "job.create" (some body.job.id) w))
              (with_tenant_tx identity.tenant_id (create_body identity.tenant_id req) w))
          w).1.db
create_job_handler_keeps identity req (some e) w p = p
create_job_handler_keeps identity req none w p =
    respond_keeps
      (λ body w. audited 201 body (insert_audit identity "job.create" (some body.job.id) w))
      (with_tenant_tx identity.tenant_id (create_body identity.tenant_id req) w)
      (λ body w p.
        audited_keeps 201 body (insert_audit identity "job.create" (some body.job.id) w)
          ((insert_audit-Keeps identity "job.create" (some body.job.id)).keeps w p))
      ((with_tenant_tx-Keeps identity.tenant_id (create_body-Keeps identity.tenant_id req)).keeps w
        p)

pub retry_job_handler_keeps :
    (identity : Identity) (job_id : String) (w : World)
    → JobsAreSound w.db
    → JobsAreSound (retry_job_handler identity job_id w).1.db
unfolding retry_job_handler
retry_job_handler_keeps identity job_id w p =
    respond_keeps (λ body w. audited 200 body (insert_audit identity "job.retry" (some job_id) w))
      (retry_body identity.tenant_id job_id w)
      (λ body w p.
        audited_keeps 200 body (insert_audit identity "job.retry" (some job_id) w)
          ((insert_audit-Keeps identity "job.retry" (some job_id)).keeps w p))
      ((retry_body-Keeps identity.tenant_id job_id).keeps w p)
