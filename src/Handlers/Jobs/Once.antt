-- ===== src/Handlers/Jobs/Once.antt =====
-- An upload intent is good for one job.
use learn_rag.Common.{◌≡◌, ◌≢◌, refl, ap, some, arith, ℕ}
use learn_rag.Model.{UploadIntent}
use learn_rag.Database.{World}
use learn_rag.Database.Rows.{select_one-update}
use learn_rag.Database.Table.{select_one}
use learn_rag.Queries.Intents.{is_issued, is_intent, spent}
use learn_rag.Handlers.{Identity, json}
use learn_rag.Handlers.Jobs.{CreateJobRequest, JobResponse, create_job_handler}
use learn_rag.Handlers.Jobs.Endpoint.{create_job-success}

-- Once the endpoint has answered with a job, no request of the same tenant for the same file key
-- is answered with one again, whatever else has happened, as long as the upload intents stay.
pub create_job-once :
    (identity later : Identity) (req again : CreateJobRequest) (w : World) {status : ℕ}
    {body : JobResponse} {w' : World}
    → create_job_handler identity req w ≡ (json status body, w')
    → (v : World) → v.db.upload_intents ≡ w'.db.upload_intents
    → later.tenant_id ≡ identity.tenant_id
    → again.file_key ≡ req.file_key
    → {status' : ℕ} {body' : JobResponse}
    → (create_job_handler later again v).0 ≢ json status' body'
create_job-once identity later req again w {body} {w'} h v table tenant key {status'} {body'}
      answered =
    let (_, _, (i, c, id, n, t, now, chosen, issued, before, found, is_job, jobs, intents)) =
      create_job-success identity req w {body = body} {w' = w'} h in
    let v' = (create_job_handler later again v).1 in
    let (
      _,
      _,
      (k, c', id', n', t', now', chosen', issued', before', found', is_job', jobs', intents'),
    ) =
      create_job-success later again v {body = body'} {w' = v'} (ap (λ r. (r, v')) answered) in
    let test = is_intent req.file_key identity.tenant_id in
    let found_again : select_one test v.db.upload_intents ≡ some (spent t i) =
      rw (table, intents)
        (select_one-update test (λ (i : UploadIntent). is_issued i.status) (spent t)
          w.db.upload_intents (λ r. refl) chosen issued) in
    let found_here : select_one test v.db.upload_intents ≡ some k = rw (key, tenant) at chosen' in
    ground arith
