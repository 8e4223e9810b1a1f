-- ===== src/Database.antt =====
-- The database as the Go code sees it: tables, statements that may fail, and transactions
-- (internal/database/tx.go). Postgres itself is not modelled beyond what the statements say: which
-- statements fail, what the clock shows, which ids `uuid.NewString` gives, which rows are locked by
-- other sessions and what `lower` does, which texts are uuids, and how far
-- apart two vectors are, are fields of `Env`. Row level security, which the migrations add, hides
-- further rows and is left out: the statements have the tenant conditions of their own texts, and those
-- that work across tenants (the claim and the load of a job by the worker, the sweep of old jobs, the
-- look-up of a key by its hash) have none. Ids in columns of type uuid are compared as texts, so an id
-- is taken to be in the canonical form of a uuid; Postgres refuses a malformed one with an error. A commit that
-- fails has been rolled back: one whose acknowledgement alone was lost is not modelled.
pub mod Table
pub mod Laws
pub mod Outcome
pub mod Keeps
pub mod Membership
pub mod Rows
pub mod Success
pub mod Sample
use learn_rag.Common.{ℕ, suc, String, Bool, Option, none, some, List, []}
use learn_rag.Common.Text.{Text}
use learn_rag.Errors.{Err, wrap}
use learn_rag.Result.{Result, ok, err}
use learn_rag.Model.{
  ApiKey, UploadIntent, Job, Video, Segment, SegmentLink, Transcript, Chunk, Summary, AuditLog,
  Vector, Stage,
}

pub record Db : Type 0 where
  pub api_keys : List ApiKey
  pub upload_intents : List UploadIntent
  pub jobs : List Job
  pub segments : List Segment
  pub job_segments : List SegmentLink
  pub videos : List Video
  pub video_segments : List SegmentLink
  pub transcripts : List Transcript
  pub chunks : List Chunk
  pub summaries : List Summary
  pub audit_logs : List AuditLog

-- What the world does, by how often it has been asked.
pub record Env : Type 0 where
  pub clock : ℕ → ℕ
  pub uuid : ℕ → String
  pub fault : ℕ → Option Err
  pub locked : ℕ → String → Bool
  pub lower : Text → Text
  pub valid_uuid : String → Bool
  pub distance : Vector → Vector → ℕ

-- The state that calls change. `stage` is the field of that name in the copy of the job that the worker
-- holds; nothing else of that copy changes.
pub record World : Type 0 where
  pub env : Env
  pub db : Db
  pub reads : ℕ
  pub minted : ℕ
  pub calls : ℕ
  pub stage : Stage

-- Code that returns a value and an error, and changes the world in either case.
abbrev pub M : Type 0 → Type 0
M A = World → Result A × World

abbrev pub and_then : {A B : Type 0} → (A → M B) → Result A × World → Result B × World
and_then f (ok a, w) = f a w
and_then f (err e, w) = (err e, w)

infixl 5 ◌>>=◌ ◌>>◌
abbrev pub ◌>>=◌ : {A B : Type 0} → M A → (A → M B) → M B
◌>>=◌ m f w = and_then f (m w)

abbrev pub ◌>>◌ : {A B : Type 0} → M A → M B → M B
m >> k = m >>= λ _. k

abbrev pub return : {A : Type 0} → A → M A
return a w = (ok a, w)

abbrev pub throw : {A : Type 0} → Err → M A
throw e w = (err e, w)

abbrev pub with_err : {A : Type 0} → (Err → Err) → Result A × World → Result A × World
with_err f (ok a, w) = (ok a, w)
with_err f (err e, w) = (err (f e), w)

-- The error path of a call, `if err != nil { return f(err) }`.
abbrev pub map_err : {A : Type 0} → (Err → Err) → M A → M A
map_err f m w = with_err f (m w)

-- A call of a service: its answer may be different each time, hence the number of calls so far.
abbrev pub Service : Type 0 → Type 0 → Type 0
Service A B = ℕ → A → Result B

abbrev pub call : {A B : Type 0} → Service A B → A → M B
call f a w = (f w.calls a, record w { calls = suc w.calls })

-- A call whose error is only logged.
abbrev pub dropped : {A : Type 0} → Result A × World → Result (Unit {0}) × World
dropped (_, w) = (ok tt, w)

abbrev pub logged : {A : Type 0} → M A → M (Unit {0})
logged m w = dropped (m w)

-- `time.Now()`.
unfoldable pub time_now : M ℕ
time_now w = (ok (w.env.clock w.reads), record w { reads = suc w.reads })

-- `uuid.NewString()`.
unfoldable pub new_uuid : M String
new_uuid w = (ok (w.env.uuid w.minted), record w { minted = suc w.minted })

-- What a statement does to the tables: it is given the session's view of the world, and leaves the
-- tables alone when it fails.
abbrev pub Statement : Type 0 → Type 0
Statement A = World → Db → Result (A × Db)

-- Any call to the server: it fails if the world says so.
unfoldable pub ask : M (Unit {0})
ask w =
    let w' = record w { calls = suc w.calls } in
    elim (w.env.fault w.calls) [ none ↦ (ok tt, w') | some e ↦ (err e, w') ]

-- The answer to a statement.
abbrev pub settle : {A : Type 0} → Result (A × Db) → M A
settle (ok (a, db)) w = (ok a, record w { db = db })
settle (err e) w = (err e, w)

-- One statement, which is atomic.
unfoldable pub exec : {A : Type 0} → Statement A → M A
unfolding ask
exec body = do ask; λ w. settle (body w w.db) w

-- The transaction's end: the tables are put back unless it succeeds.
abbrev pub rolled_back : {A : Type 0} → Db → Result A × World → Result A × World
rolled_back db (ok a, w) = (ok a, w)
rolled_back db (err e, w) = (err e, record w { db = db })

abbrev pub commit : {A : Type 0} → A → M A
commit a = do map_err (wrap "database: commit tx") ask; return a

abbrev pub begin : M (Unit {0})
begin = do map_err (wrap "database: begin tx") ask; map_err (wrap "database: set tenant") ask

-- `WithTenantTx`. The tenant is given to the session (`set_config`) for the row level security.
unfoldable pub with_tenant_tx : {A : Type 0} → String → M A → M A
with_tenant_tx tenant_id fn w = rolled_back w.db ((do begin; a ← fn; commit a) w)
