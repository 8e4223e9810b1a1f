-- ===== src/Worker/Final.antt =====
-- `ProcessJob` brings its job to an end.
use mathlib.Core.Path.{subst}
use text.Mathlib.TextEquality.{eq_iff}
use learn_rag.Common.{
  ℕ, suc, ◌≡◌, refl, sym, ap, ◌∙◌, arith, Bool, true, String, Option, none, some, List,
}
use learn_rag.Errors.{Err, wrap}
use learn_rag.Result.{Result, ok, err}
use learn_rag.Model.{Job, JobStatus, VideoStatus, Stage}
use learn_rag.Database.{Db, World, M}
use learn_rag.Database.Keeps.{Keeps, map_err-Keeps}
use learn_rag.Database.Outcome.{Outcome, weaken, bind-Outcome, then-Outcome, map_err-Outcome}
use learn_rag.Database.Rows.{select_one-update_own, select_one-passes, select_one-narrower}
use learn_rag.Database.Success.{Answers}
use learn_rag.Database.Table.{select_one}
use learn_rag.Queries.Jobs.{is_job, is_final, moved}
use learn_rag.Repo.Jobs.{update_status}
use learn_rag.Repo.JobsKept.{OnJobs, fail_by_job_id-Keeps, update_video-Keeps}
use learn_rag.Repo.Loading.{has_id, get_by_id_all_tenants_done}
use learn_rag.Repo.Moves.{
  moved_jobs, update_status-OnJobs, update_status-Outcome, update_status_done,
}
use learn_rag.Worker.Calls.{logged-Keeps, generate_summary-Keeps}
use learn_rag.Worker.Pipeline.{
  Deps, run, complete, fail, ended, loaded, process_job, sanitize_error,
}
use learn_rag.Worker.Steps.{
  Moves, prepare-Keeps, extract_transcript-Keeps, store_chunks-Keeps, run-Keeps,
}

-- The row of a job is there, with a status for which the test holds.
pub record Stands (id tenant_id : String) (test : JobStatus → Bool) (jobs : List Job) : Type 0 where
  pub row : Job
  pub found : select_one (is_job id tenant_id) jobs ≡ some row
  pub standing : test row.status ≡ true

abbrev pub any_status : JobStatus → Bool
any_status _ = true

keeps-Outcome :
    {A : Type 0} {P : Db → Type 0} {m : M A} → Keeps P m → Outcome m (λ w a w'. P w.db → P w'.db)
keeps-Outcome {P} {m} inner = record {
  holds = λ w a w' h p. subst (λ (r : Result _ × World). P r.1.db) h (inner.keeps w p);
}

module _ (id tenant_id : String) where
  moved-Stands :
      (status : JobStatus) (stage : Stage) (message : Option String) (test : JobStatus → Bool)
      → test status ≡ true
      → (now : ℕ) (jobs : List Job) → Stands id tenant_id any_status jobs
      → Stands id tenant_id test (moved_jobs id tenant_id status stage message now jobs)
  moved-Stands status stage message test passes now jobs before = record {
    row = moved status stage message now before.row;
    found =
        select_one-update_own (is_job id tenant_id) (moved status stage message now) jobs
          (λ r. refl) before.found;
    standing = passes;
  }

  update_status-Stands :
      (status : JobStatus) (stage : Stage) (message : Option String)
      → Keeps
          (OnJobs (Stands id tenant_id any_status))
          (update_status id tenant_id status stage message)
  update_status-Stands status stage message =
      update_status-OnJobs id tenant_id status stage message (Stands id tenant_id any_status)
        (moved-Stands status stage message any_status refl)

own-Moves : (job : Job) → Moves (Stands job.id job.tenant_id any_status) job
own-Moves job = record {
  stages = λ stage. update_status-Stands job.id job.tenant_id JobStatus.processing stage none;
  completes = update_status-Stands job.id job.tenant_id JobStatus.completed Stage.completed none;
  fails = λ stage message.
      update_status-Stands job.id job.tenant_id JobStatus.failed stage (some message);
}

module _ (d : Deps) (job : Job) where
  abbrev Final : List Job → Type 0
  Final = Stands job.id job.tenant_id is_final

  abbrev Present : List Job → Type 0
  Present = Stands job.id job.tenant_id any_status

  complete-Final :
      (video_id : String)
      → Outcome (complete job video_id) (λ w a w'. Present w.db.jobs → Final w'.db.jobs)
  unfolding complete
  complete-Final video_id =
      weaken
        (then-Outcome
          (map_err-Outcome (wrap "worker: complete job")
            (update_status-Outcome job.id job.tenant_id JobStatus.completed Stage.completed none))
          (keeps-Outcome {P = OnJobs Final} (
            map_err-Keeps (wrap "worker: complete video")
              (update_video-Keeps Final video_id job.tenant_id VideoStatus.completed))))
        (λ w a w' (_, between, (now, j, found, after), kept) before. kept (
          subst Final (sym after) (
            moved-Stands job.id job.tenant_id JobStatus.completed Stage.completed none is_final refl
              now w.db.jobs before)))

  -- A pipeline that succeeds has completed the job.
  run-Final : Outcome (run d job) (λ w a w'. Present w.db.jobs → Final w'.db.jobs)
  unfolding run
  run-Final =
      let moves = own-Moves job in
      weaken
        (bind-Outcome (keeps-Outcome {P = OnJobs Present} (prepare-Keeps Present job moves))
          λ video_id.
            bind-Outcome
              (keeps-Outcome {P = OnJobs Present}
                (extract_transcript-Keeps Present job moves d video_id))
              λ t.
                then-Outcome
                  (keeps-Outcome {P = OnJobs Present}
                    (store_chunks-Keeps Present job moves d video_id t))
                  (then-Outcome (complete-Final video_id) (
                    keeps-Outcome {P = OnJobs Final}
                      (generate_summary-Keeps Final d job video_id t))))
        (λ w a w' (_, _, first, (_, _, second, (_, _, third, (_, _, fourth, fifth)))) before.
          fifth (fourth (third (second (first before)))))

  -- When the server answers, a failure is written to the job.
  fail-Final :
      (e : Err) (w : World) → Answers w.env → Present w.db.jobs → Final (fail job e w).1.db.jobs
  unfolding fail
  fail-Final e w answers before =
      let message = some (sanitize_error e) in
      let (now, after) =
        update_status_done job.id job.tenant_id JobStatus.failed w.stage message w answers
          before.found in
      (logged-Keeps {P = OnJobs Final} (fail_by_job_id-Keeps Final job.id job.tenant_id)).keeps
        (update_status job.id job.tenant_id JobStatus.failed w.stage message w).1
        (subst Final (sym after) (
          moved-Stands job.id job.tenant_id JobStatus.failed w.stage message is_final refl now
            w.db.jobs before))

  ended-Final :
      (r : Result (Unit {0}) × World) (w : World)
      → run d job w ≡ r
      → Answers r.1.env
      → Present r.1.db.jobs
      → Present w.db.jobs
      → Final (ended job r).1.db.jobs
  ended-Final (ok u, w') w h answers after before = run-Final.holds w u w' h before
  ended-Final (err e, w') w h answers after before = fail-Final e w' answers after

  loaded-Final :
      (w : World) → Answers w.env → Present w.db.jobs → Final (loaded d (ok job, w)).1.db.jobs
  loaded-Final w answers before =
      let from : World = record w { stage = job.stage } in
      let ran = run-Keeps Present job (own-Moves job) d in
      ended-Final (run d job from) from refl
        (λ n. ap (λ env. env.fault n) (ran.same_env from) ∙ answers n) (ran.keeps from before)
        before

-- Whatever the storage and the providers answer, a job that ProcessJob finds ends as completed or failed, when the
-- database answers every call: its row is there afterwards, with one of the two.
pub process_job-final :
    (d : Deps) (job_id : String) (job : Job) (w : World)
    → Answers w.env
    → select_one (has_id job_id) w.db.jobs ≡ some job
    → Stands job_id job.tenant_id is_final (process_job d job_id w).1.db.jobs
unfolding process_job
process_job-final d job_id job w answers chosen =
    let same : job.id ≡ job_id =
      (eq_iff job.id job_id).0 (select_one-passes (has_id job_id) w.db.jobs chosen) in
    let own : is_job job.id job.tenant_id job ≡ true =
      ground (arith, eq_iff job.id job.id, eq_iff job.tenant_id job.tenant_id) in
    let found =
      select_one-narrower (has_id job_id) (is_job job.id job.tenant_id) w.db.jobs
        (λ s own. ground (arith, eq_iff s.id job.id, eq_iff s.id job_id)) chosen own in
    let final =
      loaded-Final d job (record w { calls = suc w.calls }) answers
        (record { row = job; found = found; standing = refl }) in
    subst (λ (r : Result Job × World). Stands job_id job.tenant_id is_final (loaded d r).1.db.jobs)
      (sym (get_by_id_all_tenants_done job_id w answers chosen))
      (subst
        (λ id.
          Stands id job.tenant_id is_final
            (loaded d (ok job, record w { calls = suc w.calls })).1.db.jobs)
        same final)
