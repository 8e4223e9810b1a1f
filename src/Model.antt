-- ===== src/Model.antt =====
-- internal/core/model/models.go: the domain records, which are also the rows of the tables
-- (internal/database/queries/models.go has the same fields; `mapJob`, `mapVideo` and the like copy
-- them one by one). A pointer or a nullable column is an `Option`, an id or a key a `String`, a time
-- a number, and a text that the program measures or walks a `Text`. A column that a CHECK
-- constraint keeps to a few values has a data type of them.
use learn_rag.Common.{ℕ, String, Option, List}
use learn_rag.Common.Text.{Text}

-- `JobStatus…`.
pub data JobStatus : Type 0 where
  pending processing completed failed : JobStatus

-- `VideoStatus…`.
pub data VideoStatus : Type 0 where
  processing completed failed : VideoStatus

-- `Kind…`; `unknown` stands for any other text.
pub data Kind : Type 0 where
  video audio pdf : Kind
  unknown : String → Kind

-- The stages that are written: "queued", and those of internal/worker/processor.go.
pub data Stage : Type 0 where
  queued downloading transcribing parsing chunking embedding completed : Stage

pub data IntentStatus : Type 0 where
  issued consumed : IntentStatus

pub record ApiKey : Type 0 where
  pub id : String
  pub tenant_id : String
  pub name : String
  pub key_hash : String
  pub scope : String
  pub revoked_at : Option ℕ
  pub last_used_at : Option ℕ
  pub created_at : ℕ
  pub updated_at : ℕ

pub record UploadIntent : Type 0 where
  pub id : String
  pub tenant_id : String
  pub file_key : String
  pub content_type : String
  pub status : IntentStatus
  pub expires_at : ℕ
  pub consumed_at : Option ℕ
  pub created_at : ℕ

pub record Job : Type 0 where
  pub id : String
  pub tenant_id : String
  pub upload_intent_id : Option String
  pub file_key : String
  pub title : Text
  pub kind : Kind
  pub status : JobStatus
  pub stage : Stage
  pub error_message : Option String
  pub retry_count : ℕ
  pub started_at : Option ℕ
  pub finished_at : Option ℕ
  pub created_at : ℕ
  pub updated_at : ℕ

pub record Video : Type 0 where
  pub id : String
  pub tenant_id : String
  pub job_id : String
  pub title : Text
  pub kind : Kind
  pub file_key : String
  pub status : VideoStatus
  pub duration_seconds : Option ℕ
  pub deleted_at : Option ℕ
  pub created_at : ℕ
  pub updated_at : ℕ

pub record Segment : Type 0 where
  pub id : String
  pub tenant_id : String
  pub name : Text
  pub created_at : ℕ

-- A row of job_segments or of video_segments: `owner_id` is the job's or the video's id.
pub record SegmentLink : Type 0 where
  pub owner_id : String
  pub segment_id : String
  pub tenant_id : String

pub record Transcript : Type 0 where
  pub id : String
  pub tenant_id : String
  pub video_id : String
  pub content : Text
  pub language : Option String
  pub model : Option String
  pub created_at : ℕ

-- An embedding is a list of float32 bit patterns.
abbrev pub Vector : Type 0
Vector = List ℕ

pub record Chunk : Type 0 where
  pub id : String
  pub tenant_id : String
  pub video_id : String
  pub chunk_index : ℕ
  pub content : Text
  pub created_at : ℕ
  pub embedding : Vector

pub data SummaryStatus : Type 0 where
  pending completed failed : SummaryStatus

pub record Summary : Type 0 where
  pub id : String
  pub tenant_id : String
  pub video_id : String
  pub status : SummaryStatus
  pub content : Option Text
  pub language : Option String
  pub model : Option String
  pub error_message : Option String
  pub created_at : ℕ
  pub updated_at : ℕ

pub record AuditLog : Type 0 where
  pub id : String
  pub tenant_id : String
  pub actor_key_id : Option String
  pub action : String
  pub object_id : Option String
  pub created_at : ℕ
