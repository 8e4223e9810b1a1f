-- ===== src/Database/Keeps.antt =====
-- A logic for invariants of the tables: what holds before a call holds after it, whether the call
-- succeeds or fails at any of its statements. No call changes the environment.
use learn_rag.Common.{
  suc, String, ◌≡◌, refl, ◌∙◌, Option, none, some, Bool, true, false, if◌then◌else◌,
}
use learn_rag.Errors.{Err, wrap}
use learn_rag.Result.{Result, ok, err}
use learn_rag.Database.{
  Db, World, M, Statement, ◌>>=◌, ◌>>◌, and_then, return, throw, map_err, with_err, time_now,
  new_uuid, ask, settle, exec, rolled_back, begin, commit, with_tenant_tx,
}

pub record Keeps {A : Type 0} (P : Db → Type 0) (m : M A) : Type 0 where
  pub keeps : (w : World) → P w.db → P (m w).1.db
  pub same_env : (w : World) → (m w).1.env ≡ w.env

with_err_env : {A : Type 0} (f : Err → Err) (r : Result A × World) → (with_err f r).1.env ≡ r.1.env
with_err_env f (ok a, w) = refl
with_err_env f (err e, w) = refl

with_err_keeps :
    {A : Type 0} (P : Db → Type 0) (f : Err → Err) (r : Result A × World)
    → P r.1.db
    → P (with_err f r).1.db
with_err_keeps P f (ok a, w) p = p
with_err_keeps P f (err e, w) p = p

module _ {P : Db → Type 0} {A : Type 0} where
  and_then_keeps :
      {B : Type 0} (f : A → M B)
      → ((a : A) → Keeps P (f a))
      → (r : Result A × World) → P r.1.db
      → P (and_then f r).1.db
  and_then_keeps f next (ok a, w) p = (next a).keeps w p
  and_then_keeps f next (err e, w) p = p

  and_then_env :
      {B : Type 0} (f : A → M B)
      → ((a : A) → Keeps P (f a))
      → (r : Result A × World) → (and_then f r).1.env ≡ r.1.env
  and_then_env f next (ok a, w) = (next a).same_env w
  and_then_env f next (err e, w) = refl

  pub bind-Keeps :
      {B : Type 0} {m : M A} {f : A → M B}
      → Keeps P m
      → ((a : A) → Keeps P (f a))
      → Keeps P (m >>= f)
  bind-Keeps {f} first next = record {
    keeps = λ w p. and_then_keeps f next _ (first.keeps w p);
    same_env = λ w. and_then_env f next _ ∙ first.same_env w;
  }

  pub then-Keeps : {B : Type 0} {m : M A} {k : M B} → Keeps P m → Keeps P k → Keeps P (m >> k)
  then-Keeps {k} first next = record {
    keeps = λ w p. and_then_keeps (λ _. k) (λ _. next) _ (first.keeps w p);
    same_env = λ w. and_then_env (λ _. k) (λ _. next) _ ∙ first.same_env w;
  }

  pub return-Keeps : {a : A} → Keeps P (return a)
  return-Keeps = record { keeps = λ w p. p; same_env = λ w. refl }

  pub throw-Keeps : (e : Err) → Keeps {A = A} P (throw e)
  throw-Keeps e = record { keeps = λ w p. p; same_env = λ w. refl }

  pub map_err-Keeps : (f : Err → Err) {m : M A} → Keeps P m → Keeps P (map_err f m)
  map_err-Keeps f inner = record {
    keeps = λ w p. with_err_keeps P f _ (inner.keeps w p);
    same_env = λ w. with_err_env f _ ∙ inner.same_env w;
  }

pub new_uuid-Keeps : {P : Db → Type 0} → Keeps P new_uuid
unfolding new_uuid
new_uuid-Keeps = record { keeps = λ w p. p; same_env = λ w. refl }

pub time_now-Keeps : {P : Db → Type 0} → Keeps P time_now
unfolding time_now
time_now-Keeps = record { keeps = λ w p. p; same_env = λ w. refl }

ask-Keeps : {P : Db → Type 0} → Keeps P ask
unfolding ask
ask-Keeps {P} = record {
  keeps = λ w p. by_fault w (w.env.fault w.calls) p;
  same_env = λ w. env_by_fault w (w.env.fault w.calls);
}
  where
    by_fault :
        (w : World) (fault : Option Err)
        → P w.db
        → P
            (elim fault as (λ _. Result (Unit {0}) × World) [
              | none ↦ (ok tt, record w { calls = suc w.calls })
              | some e ↦ (err e, record w { calls = suc w.calls })
            ]).1.db
    by_fault w none p = p
    by_fault w (some e) p = p

    env_by_fault :
        (w : World) (fault : Option Err)
        → (elim fault as (λ _. Result (Unit {0}) × World) [
          | none ↦ (ok tt, record w { calls = suc w.calls })
          | some e ↦ (err e, record w { calls = suc w.calls })
        ]).1.env
          ≡ w.env
    env_by_fault w none = refl
    env_by_fault w (some e) = refl

pub guard-Keeps :
    {P : Db → Type 0} (b : Bool) (e : Err) → Keeps P (if b then return tt else throw e)
guard-Keeps true e = record { keeps = λ w p. p; same_env = λ w. refl }
guard-Keeps false e = record { keeps = λ w p. p; same_env = λ w. refl }

settle_keeps :
    {P : Db → Type 0} {A : Type 0} (r : Result (A × Db)) (w : World)
    → P w.db
    → ((a : A) (db : Db) → r ≡ ok (a, db) → P db)
    → P (settle r w).1.db
settle_keeps (ok (a, db)) w p next = next a db refl
settle_keeps (err e) w p next = p

settle_env : {A : Type 0} (r : Result (A × Db)) (w : World) → (settle r w).1.env ≡ w.env
settle_env (ok (a, db)) w = refl
settle_env (err e) w = refl

-- A statement: it is enough that it keeps P when it succeeds.
pub exec-Keeps :
    {P : Db → Type 0} {A : Type 0} (body : Statement A)
    → ((w : World) (db : Db) (a : A) (db' : Db) → body w db ≡ ok (a, db') → P db → P db')
    → Keeps P (exec body)
unfolding exec
exec-Keeps {P} body kept = bind-Keeps ask-Keeps λ _. record {
  keeps = λ w p. settle_keeps {P = P} (body w w.db) w p (λ a db h. kept w w.db a db h p);
  same_env = λ w. settle_env (body w w.db) w;
}

rolled_back_keeps :
    {A : Type 0} (P : Db → Type 0) (db : Db) (r : Result A × World)
    → P db
    → P r.1.db
    → P (rolled_back db r).1.db
rolled_back_keeps P db (ok a, w) before after = after
rolled_back_keeps P db (err e, w) before after = before

rolled_back_env : {A : Type 0} (db : Db) (r : Result A × World) → (rolled_back db r).1.env ≡ r.1.env
rolled_back_env db (ok a, w) = refl
rolled_back_env db (err e, w) = refl

commit-Keeps : {P : Db → Type 0} {A : Type 0} (a : A) → Keeps P (commit a)
commit-Keeps a =
    then-Keeps (map_err-Keeps (wrap "database: commit tx") ask-Keeps) (return-Keeps {a = a})

begin-Keeps : {P : Db → Type 0} → Keeps P begin
begin-Keeps =
    then-Keeps (map_err-Keeps (wrap "database: begin tx") ask-Keeps)
      (map_err-Keeps (wrap "database: set tenant") ask-Keeps)

-- A transaction keeps what its body keeps.
pub with_tenant_tx-Keeps :
    {P : Db → Type 0} {A : Type 0} (tenant_id : String) {fn : M A}
    → Keeps P fn
    → Keeps P (with_tenant_tx tenant_id fn)
unfolding with_tenant_tx
with_tenant_tx-Keeps {P} tenant_id {fn} inner =
    let all : Keeps P (begin >> (fn >>= commit)) =
      then-Keeps begin-Keeps (bind-Keeps inner commit-Keeps) in
    record {
      keeps = λ w p. rolled_back_keeps P w.db _ p (all.keeps w p);
      same_env = λ w. rolled_back_env w.db _ ∙ all.same_env w;
    }
