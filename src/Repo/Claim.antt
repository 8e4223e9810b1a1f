-- ===== src/Repo/Claim.antt =====
-- Which job a claim takes (`ClaimNextPending` of internal/database/repo/jobs.go).
use mathlib.Core.Path.{subst}
use mathlib.Core.List.{Memᴰ}
use mathlib.Core.List.Memᴰ.{head, tail, not-nil}
use native.Mathlib.Nat.{le_refl}
use text.Mathlib.Text.{◌==◌ as str_eq}
use learn_rag.Common.{
  ℕ, suc, ◌≤◌, ◌≡◌, ◌≢◌, refl, sym, ap, ◌∙◌, Bool, true, false, Option, none, some, List, [], ◌∷◌,
  arith, All, All-mono, leb, leb→le, if◌then◌else◌, Bool-cases, inl, inr,
}
use learn_rag.Result.{Result, ok, err}
use learn_rag.Model.{Job, JobStatus, Stage}
use learn_rag.Database.{Db, World}
use learn_rag.Errors.{no_rows, is_no_rows}
use learn_rag.Database.Success.{Answers, exec_done, exec_refused}
use learn_rag.Database.Laws.{exec_ok}
use learn_rag.Database.Table.{first_by, earlier, select_all, update}
use learn_rag.Queries.Jobs.{
  coalesce, claimed, now_of, is_claimable, next_pending, claim_next_pending_job, updated,
}
use learn_rag.Repo.Jobs.{claim_next_pending, claimed_or_none}

module _ {R : Type 0} where
  earlier-none : (key : R → ℕ) (x : R) (o : Option R) → earlier key x o ≢ none
  earlier-none key x none = λ h. cc
  earlier-none key x (some s) = λ h. ground arith

  pub first_by-none : (key : R → ℕ) (rows : List R) → first_by key rows ≡ none → rows ≡ []
  unfolding first_by
  first_by-none key [] h = refl
  first_by-none key (x ∷ rows) h = absurd (earlier-none key x (first_by key rows) h)

  pub first_by-least :
      (key : R → ℕ) (rows : List R) {r : R}
      → first_by key rows ≡ some r
      → Memᴰ r rows × All (λ s. key r ≤ key s) rows
  unfolding first_by
  first_by-least key [] h = cc
  first_by-least key (x ∷ rows) {r} h =
      by_later (λ s e. first_by-least key rows e) (first_by key rows) refl h
    where
      by_later :
          ((s : R) → first_by key rows ≡ some s → Memᴰ s rows × All (λ t. key s ≤ key t) rows)
          → (o : Option R) → first_by key rows ≡ o
          → earlier key x o ≡ some r
          → Memᴰ r (x ∷ rows) × All (λ s. key r ≤ key s) (x ∷ rows)
      by_later least none e h =
          let only : x ≡ r = ground arith in
          (head (sym only), (rw only (le_refl (key r)), rw (first_by-none key rows e) tt))
      by_later least (some s) e h = elim (Bool-cases (leb (key x) (key s))) [
        | inl first ↦
            let only : x ≡ r = ground arith in
            let (m, all) = least s e in
            let below : key r ≤ key s = rw (← only) (leb→le (key x) (key s) first) in
            (
              head (sym only),
              (
                rw only (le_refl (key r)),
                All-mono (λ t. key s ≤ key t) (λ t. key r ≤ key t) rows (λ t le. omega arith) all,
              ),
            )
        | inr later ↦
            let only : s ≡ r = ground arith in
            let (m, all) = least s e in
            let below : key s ≤ key x = ground arith in
            (
              tail (subst (λ z. Memᴰ z rows) only m),
              (
                subst (λ z. key z ≤ key x) only below,
                subst (λ z. All (λ t. key z ≤ key t) rows) only all,
              ),
            )
      ]

  pub select_all_Mem :
      (test : R → Bool) (rows : List R) {r : R}
      → Memᴰ r (select_all test rows)
      → Memᴰ r rows × (test r ≡ true)
  unfolding select_all
  select_all_Mem test [] m = absurd (not-nil m)
  select_all_Mem test (x ∷ rows) {r} m = by_test (λ m. select_all_Mem test rows m) (test x) refl m
    where
      by_test :
          (Memᴰ r (select_all test rows) → Memᴰ r rows × (test r ≡ true))
          → (b : Bool) → test x ≡ b
          → Memᴰ r (if b then x ∷ select_all test rows else select_all test rows)
          → Memᴰ r (x ∷ rows) × (test r ≡ true)
      by_test below true e (head same) = (head same, rw same e)
      by_test below true e (tail m) = let (in_rows, passes) = below m in (tail in_rows, passes)
      by_test below false e m = let (in_rows, passes) = below m in (tail in_rows, passes)

pub updated_ok :
    (o : Option Job) (change : Job → Job) (test : Job → Job → Bool) (db : Db) {a : Job} {db' : Db}
    → updated o change test db ≡ ok (a, db')
    → (j : Job) × (o ≡ some j)
      × (a ≡ change j)
      × (db' ≡ record db { jobs = update (test j) change db.jobs })
updated_ok (some j) change test db h = (j, refl, ground arith, ground arith)
updated_ok none change test db h = cc

claimed_or_none-some :
    (r : Result Job × World) {job : Job} {w' : World}
    → claimed_or_none r ≡ (ok (some job), w')
    → r ≡ (ok job, w')
claimed_or_none-some (ok j, w) h = ground arith
claimed_or_none-some (err e, w) h = ground arith

-- What a claim is to make of a job.
abbrev pub taken : ℕ → Job → Job
taken now j = record j {
  status = JobStatus.processing;
  stage = Stage.downloading;
  started_at = coalesce j.started_at (some now);
  updated_at = now;
}

-- A claim that returns a job has taken a job of the table that was pending and that no other session
-- held, and none of the pending jobs that no other session held is older; the job is now being processed,
-- started if it was not, and no row with another id has changed.
pub claim_next_pending-oldest :
    (w : World) {job : Job} {w' : World}
    → claim_next_pending w ≡ (ok (some job), w')
    → let asked : World = record w { calls = suc w.calls } in
      (old : Job) × Memᴰ old w.db.jobs
      × (is_claimable asked old ≡ true)
      × All (λ k. old.created_at ≤ k.created_at) (select_all (is_claimable asked) w.db.jobs)
      × (job ≡ taken (now_of asked) old)
      × (w'.db ≡ record w.db {
        jobs = update (λ k. str_eq k.id old.id) (taken (now_of asked)) w.db.jobs;
      })
unfolding claim_next_pending claim_next_pending_job next_pending
claim_next_pending-oldest w {job} {w'} h =
    let asked : World = record w { calls = suc w.calls } in
    let (db, ran, after) = exec_ok claim_next_pending_job w (claimed_or_none-some _ h) in
    let (old, chosen, is_job, table) =
      updated_ok (next_pending asked w.db) (claimed (now_of asked)) _ w.db ran in
    let (candidate, least) =
      first_by-least (λ (j : Job). j.created_at) (select_all (is_claimable asked) w.db.jobs)
        chosen in
    let (in_rows, passes) = select_all_Mem (is_claimable asked) w.db.jobs candidate in
    (old, in_rows, passes, least, is_job, ap (λ (v : World). v.db) after ∙ table)

module _ (w : World) (answers : Answers w.env) where
  -- When the server answers, a claim finds nothing to take, or it takes the oldest.
  pub claim_next_pending-none :
      next_pending (record w { calls = suc w.calls }) w.db ≡ none
      → claim_next_pending w ≡ (ok none, record w { calls = suc w.calls })
  unfolding claim_next_pending claim_next_pending_job is_no_rows
  claim_next_pending-none h =
      let asked : World = record w { calls = suc w.calls } in
      ap claimed_or_none (
        exec_refused claim_next_pending_job w {e = no_rows} answers
          (ap (λ o. updated o (claimed (now_of asked)) (λ j k. str_eq k.id j.id) w.db) h))

  pub claim_next_pending-some :
      {j : Job}
      → next_pending (record w { calls = suc w.calls }) w.db ≡ some j
      → claim_next_pending w ≡ (
        ok (some (claimed (now_of w) j)),
        record w {
          calls = suc w.calls;
          db = record w.db {
            jobs = update (λ (k : Job). str_eq k.id j.id) (claimed (now_of w)) w.db.jobs;
          };
        },
      )
  unfolding claim_next_pending claim_next_pending_job
  claim_next_pending-some {j} h =
      let asked : World = record w { calls = suc w.calls } in
      ap claimed_or_none (
        exec_done claim_next_pending_job w {a = claimed (now_of w) j} answers
          (ap (λ o. updated o (claimed (now_of asked)) (λ j k. str_eq k.id j.id) w.db) h))
