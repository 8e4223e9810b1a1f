-- ===== src/Handlers/Jobs/Listing.antt =====
-- What GET /jobs answers.
use text.Mathlib.TextEquality.{eq_iff}
use mathlib.Core.List.{reverse}
use learn_rag.Common.{
  ℕ, ◌≤◌, ◌≡◌, refl, ap, ◌∙◌, String, true, Option, List, [], ◌∷◌, arith, All, length, take, drop,
  length-take, suc,
}
use learn_rag.Common.Int.{ℤ, pos, negsuc}
use learn_rag.Common.Text.{Text}
use learn_rag.Result.{Result, ok, err}
use learn_rag.Model.{Job}
use learn_rag.Database.{Db, World}
use learn_rag.Database.Outcome.{
  Outcome, weaken, bind-Outcome, with_tenant_tx-Outcome, return-Outcome, exec-Outcome,
}
use learn_rag.Database.Rows.{All-select_all, All-order_by, All-reverse, All-take, All-drop}
use learn_rag.Database.Table.{select_all, order_by}
use learn_rag.Queries.{page_of}
use learn_rag.Queries.Jobs.{list_jobs, count_jobs, is_listed}
use learn_rag.Repo.{list_offset, optional_text}
use learn_rag.Repo.Jobs.{list, count}
use learn_rag.Handlers.{Identity, Handler, json, write_error}
use learn_rag.Handlers.Pages.{pagination, pagination-bounds}
use learn_rag.Handlers.Jobs.{
  JobResponse, ListJobsResponse, decorate, list_body, with_pages, list_jobs_handler,
}
use learn_rag.Handlers.Jobs.Endpoint.{respond_json}
use learn_rag.Handlers.Jobs.Retry.{list_names-Outcome}

-- A page has the tenant's jobs only, and no more than the limit.
abbrev pub IsPage : String → ℕ → List Job → Type 0
IsPage tenant_id limit jobs =
    All (λ (j : Job). j.tenant_id ≡ tenant_id) jobs × (length jobs ≤ limit)

is_listed-tenant :
    (tenant_id : String) (status : Option String) (j : Job)
    → is_listed tenant_id status j ≡ true
    → j.tenant_id ≡ tenant_id
is_listed-tenant tenant_id status j h = ground (arith, eq_iff j.tenant_id tenant_id)

page_of-IsPage :
    (tenant_id : String) (offset : ℤ) (limit : ℕ) (rows : List Job) (db : Db) {jobs : List Job}
    {db' : Db}
    → All (λ (j : Job). j.tenant_id ≡ tenant_id) rows
    → page_of offset limit rows db ≡ ok (jobs, db')
    → IsPage tenant_id limit jobs × (db' ≡ db)
page_of-IsPage tenant_id (pos offset) limit rows db {jobs} all h =
    let same : take limit (drop offset rows) ≡ jobs = ground arith in
    let own = All-take _ limit (drop offset rows) (All-drop _ offset rows all) in
    (
      (rw (← same) own, rw (← same) (omega (arith, length-take limit (drop offset rows)))),
      ground arith,
    )
page_of-IsPage tenant_id (negsuc n) limit rows db all h = cc

list_jobs-IsPage :
    (tenant_id : String) (status : Option String) (offset : ℤ) (limit : ℕ) (w : World) (db : Db)
    {jobs : List Job} {db' : Db}
    → list_jobs tenant_id status offset limit w db ≡ ok (jobs, db')
    → IsPage tenant_id limit jobs × (db' ≡ db)
unfolding list_jobs
list_jobs-IsPage tenant_id status offset limit w db h =
    let chosen =
      All-select_all (λ (j : Job). j.tenant_id ≡ tenant_id) (is_listed tenant_id status) db.jobs
        (is_listed-tenant tenant_id status) in
    let ordered =
      All-order_by _ (λ (j : Job). j.created_at) (select_all (is_listed tenant_id status) db.jobs)
        chosen in
    page_of-IsPage tenant_id offset limit
      (reverse
        (order_by (λ (j : Job). j.created_at) (select_all (is_listed tenant_id status) db.jobs)))
      db
      (All-reverse _
        (order_by (λ (j : Job). j.created_at) (select_all (is_listed tenant_id status) db.jobs))
        ordered)
      h

unfoldable pub jobs_of : List JobResponse → List Job
jobs_of [] = []
jobs_of (r ∷ rows) = r.job ∷ jobs_of rows

decorate-Outcome :
    (tenant_id : String) (jobs : List Job)
    → Outcome (decorate tenant_id jobs) (λ w rows w'. (jobs_of rows ≡ jobs) × (w'.db ≡ w.db))
unfolding decorate jobs_of
decorate-Outcome tenant_id [] =
    weaken return-Outcome (λ w rows w' (same, (_, db)). (rw same refl, db))
decorate-Outcome tenant_id (job ∷ jobs) =
    weaken
      (bind-Outcome (list_names-Outcome job.id tenant_id) λ segments.
        bind-Outcome (decorate-Outcome tenant_id jobs)
          λ rest. return-Outcome {x = record { job = job; segments = segments } ∷ rest})
      (λ w rows w' (segments, _, db₁, (rest, _, (these, db₂), (same, (_, db₃)))).
        (rw same (ap (λ js. job ∷ js) these), db₃ ∙ db₂ ∙ db₁))

list-Outcome :
    (tenant_id status : String) (page limit : ℕ)
    → Outcome
        (list tenant_id status page limit)
        (λ w jobs w'. IsPage tenant_id limit jobs × (w'.db ≡ w.db))
unfolding list
list-Outcome tenant_id status page limit =
    weaken
      (with_tenant_tx-Outcome tenant_id
        (exec-Outcome (list_jobs tenant_id (optional_text status) (list_offset page limit) limit)))
      (λ w jobs w' (begun, done, (_, db), (ran, _), (_, db')).
        let (is_page, same) =
          list_jobs-IsPage tenant_id (optional_text status) (list_offset page limit) limit
            (record begun { calls = suc begun.calls }) begun.db ran in
        (is_page, db' ∙ same ∙ db))

count-Outcome :
    (tenant_id status : String) → Outcome (count tenant_id status) (λ w n w'. w'.db ≡ w.db)
unfolding count count_jobs
count-Outcome tenant_id status =
    weaken
      (with_tenant_tx-Outcome tenant_id
        (exec-Outcome (count_jobs tenant_id (optional_text status))))
      (λ w n w' (begun, done, (_, db), (ran, _), (_, db')).
        let same : done.db ≡ begun.db = ground arith in db' ∙ same ∙ db)

list_body-Outcome :
    (tenant_id status : String) (page limit : ℕ)
    → Outcome (list_body tenant_id status (page, limit)) (λ w body w'.
      (body.page ≡ page)
      × (body.limit ≡ limit)
      × IsPage tenant_id limit (jobs_of body.data_rows)
      × (w'.db ≡ w.db))
unfolding list_body
list_body-Outcome tenant_id status page limit =
    weaken
      (bind-Outcome (list-Outcome tenant_id status page limit) λ jobs.
        bind-Outcome (count-Outcome tenant_id status) λ total.
          bind-Outcome (decorate-Outcome tenant_id jobs) λ rows.
            return-Outcome
              {x = record { data_rows = rows; page = page; limit = limit; total = total }})
      (λ w body w'
          (jobs, _, (is_page, db₁), (total, _, db₂, (rows, _, (these, db₃), (same, (_, db₄))))).
        (
          ap (λ (b : ListJobsResponse). b.page) same,
          ap (λ (b : ListJobsResponse). b.limit) same,
          rw (same, these) is_page,
          db₄ ∙ db₃ ∙ db₂ ∙ db₁,
        ))

with_pages_json :
    (pages : Result (ℕ × ℕ)) (k : ℕ × ℕ → Handler ListJobsResponse) (w : World) {s : ℕ}
    {body : ListJobsResponse} {w' : World}
    → with_pages pages k w ≡ (json s body, w')
    → (page limit : ℕ) × (pages ≡ ok (page, limit)) × (k (page, limit) w ≡ (json s body, w'))
unfolding write_error
with_pages_json (ok (page, limit)) k w h = (page, limit, refl, h)
with_pages_json (err e) k w h = cc

-- When the listing endpoint answers with jobs, the status is 200, the page and the limit answered are those
-- of the query, the limit is at most 100, no more jobs are answered than the limit, all are of the caller's
-- tenant, and no table has changed.
pub list_jobs-own :
    (identity : Identity) (status_query : String) (page_query limit_query : Text) (w : World)
    {status : ℕ} {body : ListJobsResponse} {w' : World}
    → list_jobs_handler identity status_query page_query limit_query w ≡ (json status body, w')
    → (status ≡ 200)
      × (pagination page_query limit_query ≡ ok (body.page, body.limit))
      × (body.limit ≤ 100)
      × (length (jobs_of body.data_rows) ≤ body.limit)
      × All (λ (j : Job). j.tenant_id ≡ identity.tenant_id) (jobs_of body.data_rows)
      × (w'.db ≡ w.db)
unfolding list_jobs_handler
list_jobs-own identity status_query page_query limit_query w {status} {body} {w'} h =
    let (page, limit, accepted, rest) = with_pages_json (pagination page_query limit_query) _ w h in
    let (made, done, ran, last) = respond_json _ _ rest in
    let (is_page, is_limit, (own, few), db) =
      (list_body-Outcome identity.tenant_id status_query page limit).holds w made done ran in
    let (_, _, bounded) = pagination-bounds page_query limit_query page limit accepted in
    let body_is : body ≡ made = ground arith in
    let world_is : w' ≡ done = ground arith in
    let same_page : body.page ≡ page = ap (λ (b : ListJobsResponse). b.page) body_is ∙ is_page in
    let same_limit : body.limit ≡ limit =
      ap (λ (b : ListJobsResponse). b.limit) body_is ∙ is_limit in
    (
      ground arith,
      rw (same_page, same_limit) accepted,
      rw same_limit bounded,
      rw (same_limit, body_is) few,
      rw body_is own,
      ap (λ (v : World). v.db) world_is ∙ db,
    )
