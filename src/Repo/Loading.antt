-- ===== src/Repo/Loading.antt =====
-- `GetByIDAllTenants` of internal/database/repo/jobs.go: what it finds, and that it changes nothing.
use learn_rag.Common.{suc, ap, ◌≡◌, arith, Bool, String, Option, none, some}
use text.Mathlib.Text.{◌==◌ as str_eq}
use learn_rag.Errors.{api, err_not_found}
use learn_rag.Result.{ok}
use learn_rag.Model.{Job}
use learn_rag.Database.{Db, World, with_err}
use learn_rag.Database.Keeps.{Keeps, map_err-Keeps, exec-Keeps}
use learn_rag.Database.Outcome.{Outcome, weaken, map_err-Outcome, exec-Outcome}
use learn_rag.Database.Success.{Answers, exec_done}
use learn_rag.Database.Table.{select_one}
use learn_rag.Queries.{one}
use learn_rag.Queries.Jobs.{get_job_by_id_all_tenants}
use learn_rag.Repo.{map_no_rows}
use learn_rag.Repo.Jobs.{get_by_id_all_tenants}

abbrev pub has_id : String → Job → Bool
has_id id j = str_eq j.id id

one_ok :
    (o : Option Job) (db : Db) (a : Job) (db' : Db)
    → one o db ≡ ok (a, db')
    → (o ≡ some a) × (db' ≡ db)
one_ok (some j) db a db' h = ground arith
one_ok none db a db' h = cc

pub get_by_id_all_tenants-Outcome :
    (id : String)
    → Outcome
        (get_by_id_all_tenants id)
        (λ w j w'. (select_one (has_id id) w.db.jobs ≡ some j) × (w'.db ≡ w.db) × (w'.env ≡ w.env))
unfolding get_by_id_all_tenants get_job_by_id_all_tenants
get_by_id_all_tenants-Outcome id =
    weaken
      (map_err-Outcome (map_no_rows (api err_not_found))
        (exec-Outcome (get_job_by_id_all_tenants id)))
      (λ w j w' (ran, env). let (found, same) = one_ok _ w.db j w'.db ran in (found, same, env))

pub get_by_id_all_tenants-Keeps :
    {P : Db → Type 0} (id : String) → Keeps P (get_by_id_all_tenants id)
unfolding get_by_id_all_tenants get_job_by_id_all_tenants
get_by_id_all_tenants-Keeps {P} id =
    map_err-Keeps (map_no_rows (api err_not_found))
      (exec-Keeps (get_job_by_id_all_tenants id) λ w db a db' h p. rw ((one_ok _ db a db' h).1) p)

-- When the server answers, a job with the id is found.
pub get_by_id_all_tenants_done :
    (id : String) (w : World) {j : Job}
    → Answers w.env
    → select_one (has_id id) w.db.jobs ≡ some j
    → get_by_id_all_tenants id w ≡ (ok j, record w { calls = suc w.calls })
unfolding get_by_id_all_tenants get_job_by_id_all_tenants
get_by_id_all_tenants_done id w {j} answers found =
    ap (with_err (map_no_rows (api err_not_found))) (
      exec_done (get_job_by_id_all_tenants id) w {a = j} {db = w.db} answers
        (ap (λ o. one o w.db) found))
