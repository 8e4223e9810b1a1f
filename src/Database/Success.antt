-- ===== src/Database/Success.antt =====
-- When the server answers every call, statements fail for their own reasons only.
use learn_rag.Common.{ℕ, suc, ◌≡◌, ap, ◌∙◌, String, none}
use learn_rag.Errors.{Err, wrap}
use learn_rag.Result.{ok, err}
use learn_rag.Database.{
  Db, Env, World, M, Statement, ◌>>=◌, and_then, map_err, ask, exec, settle, with_tenant_tx, begin,
  commit, rolled_back, with_err,
}

-- The server answers every call.
abbrev pub Answers : Env → Type 0
Answers env = (n : ℕ) → env.fault n ≡ none

pub ask_done : (w : World) → Answers w.env → ask w ≡ (ok tt, record w { calls = suc w.calls })
unfolding ask
ask_done w answers = rw (ask, answers w.calls)

pub exec_refused :
    {A : Type 0} (body : Statement A) (w : World) {e : Err}
    → Answers w.env
    → body (record w { calls = suc w.calls }) w.db ≡ err e
    → exec body w ≡ (err e, record w { calls = suc w.calls })
unfolding exec
exec_refused body w answers h =
    let asked : World = record w { calls = suc w.calls } in
    ap (λ r. and_then (λ _ w. settle (body w w.db) w) r) (ask_done w answers)
    ∙ ap (λ r. settle r asked) h

begin_done : (w : World) → Answers w.env → begin w ≡ (ok tt, record w { calls = suc (suc w.calls) })
begin_done w answers =
    ap
      (λ r.
        and_then (λ _. map_err (wrap "database: set tenant") ask)
          (with_err (wrap "database: begin tx") r))
      (ask_done w answers)
    ∙ ap (with_err (wrap "database: set tenant"))
        (ask_done (record w { calls = suc w.calls }) answers)

module _ {A : Type 0} where
  pub exec_done :
      (body : Statement A) (w : World) {a : A} {db : Db}
      → Answers w.env
      → body (record w { calls = suc w.calls }) w.db ≡ ok (a, db)
      → exec body w ≡ (ok a, record w { calls = suc w.calls; db = db })
  unfolding exec
  exec_done body w answers h =
      let asked : World = record w { calls = suc w.calls } in
      ap (λ r. and_then (λ _ w. settle (body w w.db) w) r) (ask_done w answers)
      ∙ ap (λ r. settle r asked) h

  commit_done :
      (a : A) (w : World) → Answers w.env → commit a w ≡ (ok a, record w { calls = suc w.calls })
  commit_done a w answers =
      ap (λ r. and_then (λ _ w. (ok a, w)) (with_err (wrap "database: commit tx") r))
        (ask_done w answers)

  -- A transaction whose body succeeds.
  pub with_tenant_tx_done :
      (tenant_id : String) (fn : M A) (w : World) {a : A} {done : World}
      → Answers w.env
      → fn (record w { calls = suc (suc w.calls) }) ≡ (ok a, done)
      → Answers done.env
      → with_tenant_tx tenant_id fn w ≡ (ok a, record done { calls = suc done.calls })
  unfolding with_tenant_tx
  with_tenant_tx_done tenant_id fn w {a} {done} answers ran still =
      ap (λ r. rolled_back w.db (and_then (λ _. fn >>= commit) r)) (begin_done w answers)
      ∙ ap (λ r. rolled_back w.db (and_then commit r)) ran
      ∙ ap (rolled_back w.db) (commit_done a done still)

  -- A transaction whose body fails.
  pub with_tenant_tx_refused :
      (tenant_id : String) (fn : M A) (w : World) {e : Err} {done : World}
      → Answers w.env
      → fn (record w { calls = suc (suc w.calls) }) ≡ (err e, done)
      → with_tenant_tx tenant_id fn w ≡ (err e, record done { db = w.db })
  unfolding with_tenant_tx
  with_tenant_tx_refused tenant_id fn w answers ran =
      ap (λ r. rolled_back w.db (and_then (λ _. fn >>= commit) r)) (begin_done w answers)
      ∙ ap (λ r. rolled_back w.db (and_then commit r)) ran
