-- ===== src/Database/Laws.antt =====
-- Inversion of fallible calls, and what a transaction guarantees.
use mathlib.Core.Path.{subst}
use learn_rag.Common.{suc, ◌≡◌, refl, ap, ◌∙◌, String, arith}
use learn_rag.Errors.{Err, wrap}
use learn_rag.Result.{Result, ok, err}
use learn_rag.Database.{
  Db, World, M, Statement, ◌>>=◌, and_then, map_err, ask, exec, with_tenant_tx, rolled_back, commit,
  with_err, settle, begin,
}

and_then_ok :
    {A B : Type 0} (f : A → M B) (r : Result A × World) {b : B} {w' : World}
    → and_then f r ≡ (ok b, w')
    → (a : A) × (between : World) × (r ≡ (ok a, between)) × (f a between ≡ (ok b, w'))
and_then_ok f (ok a, between) h = (a, between, refl, h)
and_then_ok f (err x, between) h = cc

-- A successful chain of two calls.
pub bind_ok :
    {A B : Type 0} (m : M A) (f : A → M B) (w : World) {b : B} {w' : World}
    → (m >>= f) w ≡ (ok b, w')
    → (a : A) × (between : World) × (m w ≡ (ok a, between)) × (f a between ≡ (ok b, w'))
bind_ok m f w h = and_then_ok f (m w) h

with_err_ok :
    {A : Type 0} (f : Err → Err) (r : Result A × World) {a : A} {w' : World}
    → with_err f r ≡ (ok a, w')
    → r ≡ (ok a, w')
with_err_ok f (ok x, between) h = h
with_err_ok f (err x, between) h = cc

-- A success is not changed by the translation of errors.
pub map_err_ok :
    {A : Type 0} (f : Err → Err) (m : M A) (w : World) {a : A} {w' : World}
    → map_err f m w ≡ (ok a, w')
    → m w ≡ (ok a, w')
map_err_ok f m w h = with_err_ok f (m w) h

-- A call that is answered changes only the number of calls.
pub ask_ok :
    (w : World) {u : Unit {0}} {w' : World}
    → ask w ≡ (ok u, w')
    → w' ≡ record w { calls = suc w.calls }
unfolding ask
ask_ok w h = ground arith

settle_ok :
    {A : Type 0} (r : Result (A × Db)) (w : World) {a : A} {w' : World}
    → settle r w ≡ (ok a, w')
    → (db : Db) × (r ≡ ok (a, db)) × (w' ≡ record w { db = db })
settle_ok (ok (x, db)) w h = (db, ground arith, ground arith)
settle_ok (err e) w h = cc

-- A statement that succeeds.
pub exec_ok :
    {A : Type 0} (body : Statement A) (w : World) {a : A} {w' : World}
    → exec body w ≡ (ok a, w')
    → let asked : World = record w { calls = suc w.calls } in
      (db : Db) × (body asked w.db ≡ ok (a, db)) × (w' ≡ record asked { db = db })
unfolding exec
exec_ok body w {a} {w'} h =
    let (u, between, answered, rest) = bind_ok ask (λ _ w. settle (body w w.db) w) w h in
    let asked : World = record w { calls = suc w.calls } in
    let from_asked = subst (λ s. settle (body s s.db) s ≡ (ok a, w')) (ask_ok w answered) rest in
    settle_ok (body asked w.db) asked from_asked

begin_ok :
    (w : World) {u : Unit {0}} {w' : World}
    → begin w ≡ (ok u, w')
    → w' ≡ record w { calls = suc (suc w.calls) }
begin_ok w {u} {w'} h =
    let (_, between, answered, rest) = bind_ok (map_err (wrap "database: begin tx") ask) _ w h in
    let first = ask_ok w (map_err_ok _ ask w answered) in
    let second = ask_ok between (map_err_ok _ ask between rest) in
    second ∙ ap (λ (s : World). record s { calls = suc s.calls }) first

commit_ok :
    {A : Type 0} (a : A) (w : World) {b : A} {w' : World}
    → commit a w ≡ (ok b, w')
    → (a ≡ b) × (w' ≡ record w { calls = suc w.calls })
commit_ok a w h =
    let (_, between, answered, rest) = bind_ok (map_err (wrap "database: commit tx") ask) _ w h in
    let same = ask_ok w (map_err_ok _ ask w answered) in (ground arith, ground arith)

rolled_back_ok :
    {A : Type 0} (db : Db) (r : Result A × World) {a : A} {w' : World}
    → rolled_back db r ≡ (ok a, w')
    → r ≡ (ok a, w')
rolled_back_ok db (ok x, w) h = h
rolled_back_ok db (err e, w) h = cc

-- A transaction that succeeds has run its body on the tables as they were, and kept what it did.
pub with_tenant_tx_ok :
    {A : Type 0} (tenant_id : String) (fn : M A) (w : World) {a : A} {w' : World}
    → with_tenant_tx tenant_id fn w ≡ (ok a, w')
    → let begun : World = record w { calls = suc (suc w.calls) } in
      (done : World) × (fn begun ≡ (ok a, done)) × (w' ≡ record done { calls = suc done.calls })
unfolding with_tenant_tx
with_tenant_tx_ok tenant_id fn w {a} {w'} h =
    let begun : World = record w { calls = suc (suc w.calls) } in
    let (_, first, opened, rest) = bind_ok begin (λ _. fn >>= commit) w (rolled_back_ok w.db _ h) in
    let from_begun = subst (λ s. (fn >>= commit) s ≡ (ok a, w')) (begin_ok w opened) rest in
    let (x, done, ran, ended) = bind_ok fn commit begun from_begun in
    let (same, after) = commit_ok x done ended in
    (done, subst (λ x. fn begun ≡ (ok x, done)) same ran, after)

rolled_back_err :
    {A : Type 0} (db : Db) (r : Result A × World) {e : Err} {w' : World}
    → rolled_back db r ≡ (err e, w')
    → w'.db ≡ db
rolled_back_err db (ok x, w) h = cc
rolled_back_err db (err e, w) h = ground arith

-- A transaction that fails, at whatever point, leaves every table as it was.
pub with_tenant_tx-atomic :
    {A : Type 0} (tenant_id : String) (fn : M A) (w : World) {e : Err} {w' : World}
    → with_tenant_tx tenant_id fn w ≡ (err e, w')
    → w'.db ≡ w.db
unfolding with_tenant_tx
with_tenant_tx-atomic tenant_id fn w h = rolled_back_err w.db _ h
