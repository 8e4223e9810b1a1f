-- ===== src/Database/Sample.antt =====
-- Worlds for the examples: empty tables, and a server without locks whose clock counts up.
use text.Mathlib.Text.{◌==◌ as str_eq}
use learn_rag.Common.{ℕ, ◌+◌, String, not, false, Option, none, []}
use learn_rag.Errors.{Err}
use learn_rag.Model.{Stage}
use learn_rag.Database.{Db, Env, World}

abbrev pub empty_db : Db
empty_db = record {
  api_keys = [];
  upload_intents = [];
  jobs = [];
  segments = [];
  job_segments = [];
  videos = [];
  video_segments = [];
  transcripts = [];
  chunks = [];
  summaries = [];
  audit_logs = [];
}

-- A server whose clock starts at the given time.
abbrev pub sample_env : ℕ → (ℕ → String) → (ℕ → Option Err) → Env
sample_env start uuid fault = record {
  clock = λ n. start + n;
  uuid = uuid;
  fault = fault;
  locked = λ _ _. false;
  lower = λ t. t;
  valid_uuid = λ id. not (str_eq id "");
  distance = λ _ _. 0;
}

-- The same, without failures.
abbrev pub sample_world : ℕ → (ℕ → String) → Db → World
sample_world start uuid db = record {
  env = sample_env start uuid (λ _. none);
  db = db;
  reads = 0;
  minted = 0;
  calls = 0;
  stage = Stage.queued;
}
