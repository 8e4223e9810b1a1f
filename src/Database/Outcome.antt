-- ===== src/Database/Outcome.antt =====
-- A logic for code on the database: what holds between the worlds before and after a call that
-- succeeds, put together along the code.
use mathlib.Core.Path.{subst}
use learn_rag.Common.{suc, String, ◌≡◌, refl, ap, sym, arith, Bool, true, false, if◌then◌else◌}
use learn_rag.Errors.{Err}
use learn_rag.Result.{ok}
use learn_rag.Database.{
  World, M, Statement, ◌>>=◌, ◌>>◌, return, throw, map_err, time_now, new_uuid, exec,
  with_tenant_tx,
}
use learn_rag.Database.Laws.{bind_ok, map_err_ok, exec_ok, with_tenant_tx_ok}

-- When `m` succeeds with `a`, from w to w', then `R w a w'`.
pub record Outcome {A : Type 0} (m : M A) (R : World → A → World → Type 0) : Type 0 where
  pub holds : (w : World) (a : A) (w' : World) → m w ≡ (ok a, w') → R w a w'

-- The environment and the tables stay.
abbrev pub Quiet : World → World → Type 0
Quiet w w' = (w'.env ≡ w.env) × (w'.db ≡ w.db)

module _ {A : Type 0} {m : M A} {R : World → A → World → Type 0} where
  pub weaken :
      {Q : World → A → World → Type 0}
      → Outcome m R
      → ((w : World) (a : A) (w' : World) → R w a w' → Q w a w')
      → Outcome m Q
  weaken first implies = record { holds = λ w a w' h. implies w a w' (first.holds w a w' h) }

  pub map_err-Outcome : (f : Err → Err) → Outcome m R → Outcome (map_err f m) R
  map_err-Outcome f inner = record { holds = λ w a w' h. inner.holds w a w' (map_err_ok f m w h) }

  -- A transaction: what its body does, between worlds with the same tables.
  pub with_tenant_tx-Outcome :
      (tenant_id : String)
      → Outcome m R
      → Outcome
          (with_tenant_tx tenant_id m)
          (λ w a w'. (begun done : World) × Quiet w begun × R begun a done × Quiet done w')
  with_tenant_tx-Outcome tenant_id inner = record {
    holds = λ w a w' h.
        let (done, ran, after) = with_tenant_tx_ok tenant_id m w h in
        (
          _,
          done,
          (refl, refl),
          inner.holds _ a done ran,
          (ap (λ (v : World). v.env) after, ap (λ (v : World). v.db) after),
        );
  }

module _ {A B : Type 0} {m : M A} {R : World → A → World → Type 0} where
  pub bind-Outcome :
      {f : A → M B} {S : A → World → B → World → Type 0}
      → Outcome m R
      → ((a : A) → Outcome (f a) (S a))
      → Outcome (m >>= f) (λ w b w'. (a : A) × (between : World) × R w a between × S a between b w')
  bind-Outcome {f} first second = record {
    holds = λ w b w' h.
        let (a, between, ran, rest) = bind_ok m f w h in
        (a, between, first.holds w a between ran, (second a).holds between b w' rest);
  }

  pub then-Outcome :
      {k : M B} {S : World → B → World → Type 0}
      → Outcome m R
      → Outcome k S
      → Outcome (m >> k) (λ w b w'. (a : A) × (between : World) × R w a between × S between b w')
  then-Outcome {k} first second = record {
    holds = λ w b w' h.
        let (a, between, ran, rest) = bind_ok m (λ _. k) w h in
        (a, between, first.holds w a between ran, second.holds between b w' rest);
  }

pub return-Outcome : {A : Type 0} {x : A} → Outcome (return x) (λ w a w'. (a ≡ x) × Quiet w w')
return-Outcome = record { holds = λ w a w' h. ground arith }

pub new_uuid-Outcome : Outcome new_uuid (λ w a w'. Quiet w w')
unfolding new_uuid
new_uuid-Outcome = record { holds = λ w a w' h. ground arith }

pub time_now-Outcome : Outcome time_now (λ w a w'. (a ≡ w.env.clock w.reads) × Quiet w w')
unfolding time_now
time_now-Outcome = record { holds = λ w a w' h. ground arith }

-- A statement that succeeds, in a world that differs from w by the number of calls.
pub exec-Outcome :
    {A : Type 0} (body : Statement A)
    → Outcome (exec body) (λ w a w'.
      (body (record w { calls = suc w.calls }) w.db ≡ ok (a, w'.db)) × (w'.env ≡ w.env))
exec-Outcome body = record {
  holds = λ w a w' h.
      let (db, ran, after) = exec_ok body w h in
      let same = ap (λ (v : World). v.db) after in
      (
        subst (λ x. body (record w { calls = suc w.calls }) w.db ≡ ok (a, x)) (sym same) ran,
        ap (λ (v : World). v.env) after,
      );
}

-- A test that gives up.
pub guard-Outcome :
    (b : Bool) (e : Err)
    → Outcome (if b then return tt else throw e) (λ w a w'. (b ≡ true) × Quiet w w')
guard-Outcome true e = record { holds = λ w a w' h. ground arith }
guard-Outcome false e = record { holds = λ w a w' h. cc }
