-- ===== src/Handlers/Jobs/ListingExamples.antt =====
-- The listing of a table of one job.
use learn_rag.Common.{ℕ, ◌≤◌, ◌≡◌, refl, [], ◌∷◌, All, length}
use learn_rag.Common.Text.{codes}
use learn_rag.Result.{ok}
use learn_rag.Model.{Job}
use learn_rag.Database.{World}
use learn_rag.Database.Table.{select_all, order_by, insert_by, count_rows}
use learn_rag.Queries.Segments.{sort_names, names_of}
use learn_rag.Handlers.{json}
use learn_rag.Handlers.Pages.{pagination, digits}
use learn_rag.Handlers.Jobs.{ListJobsResponse, list_jobs_handler}
use learn_rag.Handlers.Jobs.Listing.{jobs_of, list_jobs-own}
use learn_rag.Handlers.Jobs.Examples.{admin, failed_job, server_with_job}

abbrev status_ok : ℕ
status_ok = 200

abbrev listing : ListJobsResponse
listing = record {
  data_rows = record { job = failed_job; segments = [] } ∷ [];
  page = 1;
  limit = 5;
  total = 1;
}

abbrev after_list : World
after_list = (list_jobs_handler admin "failed" [] (codes "5") server_with_job).1

list_answered :
    list_jobs_handler admin "failed" [] (codes "5") server_with_job
    ≡ (json status_ok listing, after_list)
unfolding list_jobs_handler order_by select_all sort_names names_of count_rows insert_by digits
list_answered = refl

list_jobs-own_example :
    (status_ok ≡ 200)
    × (pagination [] (codes "5") ≡ ok (listing.page, listing.limit))
    × (listing.limit ≤ 100)
    × (length (jobs_of listing.data_rows) ≤ listing.limit)
    × All (λ (j : Job). j.tenant_id ≡ "t1") (jobs_of listing.data_rows)
    × (after_list.db ≡ server_with_job.db)
list_jobs-own_example = list_jobs-own admin "failed" [] (codes "5") server_with_job list_answered
