-- ===== src/Repo/Examples.antt =====
-- A table of three jobs, two of them waiting, and the offsets of some pages.
use mathlib.Core.List.{Memᴰ}
use text.Mathlib.Text.{◌==◌ as str_eq}
use learn_rag.Common.{
  ℕ, ◌+◌, ◌-◌, ◌*◌, ◌≤◌, ◌≡◌, refl, String, true, none, some, [], ◌∷◌, All, arith,
}
use learn_rag.Common.Int.{pos}
use learn_rag.Common.Text.{codes}
use learn_rag.Result.{ok}
use learn_rag.Model.{Job, JobStatus, Kind, Stage}
use learn_rag.Database.{World}
use learn_rag.Database.Sample.{empty_db, sample_world}
use learn_rag.Database.Table.{select_all, first_by, update}
use learn_rag.Queries.Jobs.{claimed, is_claimable, now_of}
use learn_rag.Repo.{list_offset}
use learn_rag.Repo.Jobs.{claim_next_pending}
use learn_rag.Repo.Claim.{claim_next_pending-oldest}
use learn_rag.Repo.Offset.{list_offset_exact, list_offset_wraps}

abbrev job : String → JobStatus → ℕ → Job
job id status created_at = record {
  id = id;
  tenant_id = "t1";
  upload_intent_id = none;
  file_key = id;
  title = codes "Algebra";
  kind = Kind.pdf;
  status = status;
  stage = Stage.queued;
  error_message = none;
  retry_count = 0;
  started_at = none;
  finished_at = none;
  created_at = created_at;
  updated_at = created_at;
}

abbrev server : World
server =
    sample_world 50 (λ _. "u")
      (record empty_db {
        jobs =
            job "a" JobStatus.pending 7
            ∷ job "b" JobStatus.pending 5
            ∷ job "c" JobStatus.processing 1
            ∷ [];
      })

abbrev asked : World
asked = record server { calls = 1 }

abbrev after : World
after = (claim_next_pending server).1

claim_takes_b :
    claim_next_pending server ≡ (ok (some (claimed 50 (job "b" JobStatus.pending 5))), after)
unfolding claim_next_pending select_all first_by
claim_takes_b = refl

claim_next_pending-oldest_example :
    (old : Job) × Memᴰ old server.db.jobs
    × (is_claimable asked old ≡ true)
    × All (λ k. old.created_at ≤ k.created_at) (select_all (is_claimable asked) server.db.jobs)
    × (claimed 50 (job "b" JobStatus.pending 5) ≡ claimed (now_of asked) old)
    × (after.db ≡ record server.db {
      jobs = update (λ k. str_eq k.id old.id) (claimed (now_of asked)) server.db.jobs;
    })
claim_next_pending-oldest_example = claim_next_pending-oldest server claim_takes_b

list_offset_exact_example : list_offset 3 20 ≡ pos ((3 - 1) * 20)
list_offset_exact_example = list_offset_exact 3 20 (omega arith) (omega arith)

list_offset_wraps_example : list_offset (2 + 4294967296) 20 ≡ list_offset 2 20
list_offset_wraps_example = list_offset_wraps 2 20 (omega arith)
