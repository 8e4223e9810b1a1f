-- ===== src/Worker/Draining.antt =====
-- A wake signal empties the queue (`workerLoop` of internal/worker/worker.go).
use mathlib.Core.Path.{subst}
use mathlib.Core.List.{Memᴰ}
use mathlib.Core.List.Memᴰ.{head, tail, not-nil}
use text.Mathlib.TextEquality.{eq_iff}
use text.Mathlib.Text.{◌==◌ as str_eq}
use learn_rag.Common.{
  ℕ, zero, suc, ◌≤◌, ◌<◌, ◌≡◌, ◌⊎◌, inl, inr, refl, sym, ap, ◌∙◌, arith, Bool, true, false, String,
  Option, some, List, [], ◌∷◌, All, if◌then◌else◌, Option-cases, Bool-cases,
}
use learn_rag.Result.{Result, ok}
use learn_rag.Model.{Job, JobStatus, Stage}
use learn_rag.Database.{Env, World}
use learn_rag.Database.Rows.{count-update_le, count-update_lt}
use learn_rag.Database.Success.{Answers}
use learn_rag.Database.Table.{select_all, update, count_rows}
use learn_rag.Queries.Jobs.{is_pending, is_job, is_claimable, next_pending, claimed, moved, now_of}
use learn_rag.Repo.Claim.{
  first_by-none, first_by-least, select_all_Mem, claim_next_pending-none, claim_next_pending-some,
}
use learn_rag.Repo.Lifecycle.{All-update}
use learn_rag.Repo.Moves.{moved_jobs}
use learn_rag.Worker.Life.{always-Moves, process_job_keeps, process_job-env}
use learn_rag.Worker.Pipeline.{Deps, process_job}
use learn_rag.Worker.Queue.{Drained, emptied, shut_down, after_claim, drain}

-- The number of pending jobs.
abbrev pub pending_jobs : List Job → ℕ
pending_jobs jobs = count_rows (select_all (λ (j : Job). is_pending j.status) jobs)

-- No other session holds a job.
abbrev pub Unlocked : Env → Type 0
Unlocked env = (n : ℕ) (id : String) → env.locked n id ≡ false

abbrev pub HasId : Job → Type 0
HasId j = str_eq j.id "" ≡ false

-- The draining was stopped after a job by a shutdown that had begun then, or no job is pending any more.
abbrev pub IsDrained : (ℕ → Bool) → Drained × World → Type 0
IsDrained shutdown r =
    ((r.0 ≡ shut_down) × (shutdown r.1.calls ≡ true))
    ⊎ ((r.0 ≡ emptied) × (pending_jobs r.1.db.jobs ≡ 0))

-- What the worker keeps of the jobs.
abbrev Few : ℕ → List Job → Type 0
Few n jobs = (pending_jobs jobs ≤ n) × All HasId jobs

moved_jobs-Few :
    (n : ℕ) (id tenant_id : String) (status : JobStatus) (stage : Stage) (message : Option String)
    (now : ℕ) (jobs : List Job)
    → is_pending status ≡ false
    → Few n jobs
    → Few n (moved_jobs id tenant_id status stage message now jobs)
moved_jobs-Few n id tenant_id status stage message now jobs h (few, named) =
    let less =
      count-update_le (λ (j : Job). is_pending j.status) (is_job id tenant_id)
        (moved status stage message now) jobs (λ j. h) in
    (
      omega arith,
      All-update HasId (is_job id tenant_id) (moved status stage message now) jobs (λ j t p. p)
          named,
    )

none_pending :
    (w : World) (jobs : List Job)
    → Unlocked w.env
    → select_all (is_claimable w) jobs ≡ []
    → pending_jobs jobs ≡ 0
unfolding select_all count_rows
none_pending w [] unlocked h = refl
none_pending w (j ∷ jobs) unlocked h = elim (Bool-cases (is_pending j.status)) [
  | inl pending ↦ let free = unlocked w.calls j.id in ground arith
  | inr other ↦ let rest = none_pending w jobs unlocked in ground arith
]

module _ (d : Deps) (shutdown : ℕ → Bool) (n : ℕ) where
  -- What a round does after a claim of a job.
  after_claim-drained :
      (again : World → Drained × World) (job : Job) (u : World)
      → HasId job
      → Few n u.db.jobs
      → ((v : World) → v.env ≡ u.env → Few n v.db.jobs → IsDrained shutdown (again v))
      → IsDrained shutdown (after_claim d shutdown again (ok (some job), u))
  after_claim-drained again job u named few rest =
      let v = (process_job d job.id u).1 in
      let kept =
        process_job_keeps (Few n) d job.id u (λ j h. always-Moves (Few n) (moved_jobs-Few n) j)
          few in
      by_tests (str_eq job.id "") (shutdown v.calls) named refl
        (rest v (process_job-env d job.id u) kept)
    where
      by_tests :
          (empty ended : Bool)
          → empty ≡ false
          → shutdown (process_job d job.id u).1.calls ≡ ended
          → IsDrained shutdown (again (process_job d job.id u).1)
          → IsDrained shutdown (
              if empty
              then (emptied, u)
              else if ended
              then (shut_down, (process_job d job.id u).1)
              else again (process_job d job.id u).1)
      by_tests true ended h begun next = cc
      by_tests false true h begun next = inl (refl, begun)
      by_tests false false h begun next = next

HasId-Mem : (jobs : List Job) {j : Job} → All HasId jobs → Memᴰ j jobs → HasId j
HasId-Mem [] all m = absurd (not-nil m)
HasId-Mem (k ∷ jobs) (p, all) (head same) = subst HasId (sym same) p
HasId-Mem (k ∷ jobs) (p, all) (tail m) = HasId-Mem jobs all m

-- When the database answers every call, no other session holds jobs and every job has an id, the draining of the queue ends
-- within as many rounds as there are pending jobs, and one, whatever the storage and the providers answer: either it stopped
-- because the shutdown had begun, by the context's answer after the last job, or no job is pending any more.
pub drain-IsDrained :
    (d : Deps) (shutdown : ℕ → Bool) (fuel : ℕ) (w : World)
    → Answers w.env
    → Unlocked w.env
    → All HasId w.db.jobs
    → pending_jobs w.db.jobs < fuel
    → IsDrained shutdown (drain d shutdown fuel w)
unfolding drain next_pending
drain-IsDrained d shutdown zero w answers unlocked named enough = absurd (omega arith)
drain-IsDrained d shutdown (suc fuel) w answers unlocked named enough =
    let asked : World = record w { calls = suc w.calls } in
    let after : Result (Option Job) × World → Type 0 =
      λ r. IsDrained shutdown (after_claim d shutdown (drain d shutdown fuel) r) in
    elim (Option-cases (next_pending asked w.db)) [
      | inl nothing ↦
          let empty =
            first_by-none (λ (j : Job). j.created_at) (select_all (is_claimable asked) w.db.jobs)
              nothing in
          subst after (sym (claim_next_pending-none w answers nothing))
            (inr (refl, none_pending asked w.db.jobs unlocked empty))
      | inr (j, chosen) ↦
          let (candidate, least) =
            first_by-least (λ (j : Job). j.created_at) (select_all (is_claimable asked) w.db.jobs)
              chosen in
          let (stored, passes) = select_all_Mem (is_claimable asked) w.db.jobs candidate in
          let now = now_of w in
          let is_same = λ (k : Job). str_eq k.id j.id in
          let jobs = update is_same (claimed now) w.db.jobs in
          let u : World = record asked { db = record w.db { jobs = jobs } } in
          let fewer =
            count-update_lt (λ (j : Job). is_pending j.status) is_same (claimed now) w.db.jobs
              (λ k. refl) stored (ground arith) (ground (arith, eq_iff j.id j.id)) in
          let few : Few (pending_jobs jobs) jobs =
            (omega arith, All-update HasId is_same (claimed now) w.db.jobs (λ k t p. p) named) in
          subst after (sym (claim_next_pending-some w answers chosen)) (
            after_claim-drained d shutdown (pending_jobs jobs) (drain d shutdown fuel)
              (claimed now j) u (HasId-Mem w.db.jobs named stored) few
              (λ v env (less, named').
                drain-IsDrained d shutdown fuel v (λ n. ap (λ (e : Env). e.fault n) env ∙ answers n)
                  (λ n id. ap (λ (e : Env). e.locked n id) env ∙ unlocked n id) named'
                  (omega arith)))
    ]
