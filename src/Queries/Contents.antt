-- ===== src/Queries/Contents.antt =====
-- internal/database/queries/transcripts.sql.go, chunks.sql.go and summaries.sql.go: what belongs to
-- a video. The keys that refer to other tables are not checked.
use text.Mathlib.Text.{◌==◌ as str_eq}
use learn_rag.Common.{
  ℕ, String, Bool, not, ◌&&◌, ◌||◌, ◌==◌, Option, none, some, List, [], ◌∷◌, ◌++◌, if◌then◌else◌,
  length, take,
}
use learn_rag.Common.Text.{Text}
use learn_rag.Errors.{Err, plain}
use learn_rag.Result.{Result, ok, err}
use learn_rag.Model.{Video, Transcript, Chunk, Summary, Vector}
use learn_rag.Database.{Db, World, Statement}
use learn_rag.Database.Table.{select_one, update, delete, exists, order_by}
use learn_rag.Queries.{one, unique_violation}
use learn_rag.Queries.Jobs.{now_of}
use learn_rag.Queries.Videos.{status_text, is_live, in_segment}

abbrev pub invalid_uuid : Err
invalid_uuid = plain "invalid input syntax for type uuid"

-- What `ON CONFLICT (video_id) DO UPDATE` keeps of the old row.
abbrev pub merged_transcript : Transcript → Transcript → Transcript
merged_transcript new old = record old {
  content = new.content;
  language = new.language;
  model = new.model;
}

abbrev pub upserted_transcript : Transcript → Option Transcript → Db → Result (Transcript × Db)
upserted_transcript t (some old) db = ok (
  merged_transcript t old,
  record db {
    transcripts =
        update (λ (r : Transcript). str_eq r.video_id t.video_id) (merged_transcript t)
          db.transcripts;
  },
)
upserted_transcript t none db =
    if exists (λ (r : Transcript). str_eq r.id t.id) db.transcripts
    then err unique_violation
    else ok (t, record db { transcripts = db.transcripts ++ t ∷ [] })

-- `UpsertTranscript`; the server refuses an id that is not a uuid.
unfoldable pub upsert_transcript : Transcript → Statement Transcript
upsert_transcript t w db =
    if w.env.valid_uuid t.id
    then upserted_transcript t
        (select_one (λ (r : Transcript). str_eq r.video_id t.video_id) db.transcripts) db
    else err invalid_uuid

-- `WHERE video_id = $1 AND tenant_id = $2`.
abbrev pub is_chunk_of : String → String → Chunk → Bool
is_chunk_of video_id tenant_id c = str_eq c.video_id video_id && str_eq c.tenant_id tenant_id

-- `DeleteChunksByVideoID`.
unfoldable pub delete_chunks_by_video_id : String → String → Statement (Unit {0})
delete_chunks_by_video_id video_id tenant_id w db =
    ok (tt, record db { chunks = delete (is_chunk_of video_id tenant_id) db.chunks })

-- The primary key, and UNIQUE (video_id, chunk_index).
abbrev pub conflicts : Chunk → Chunk → Bool
conflicts new old =
    str_eq old.id new.id
    || (str_eq old.video_id new.video_id && (old.chunk_index == new.chunk_index))

-- `InsertChunk`; the column is a vector(1024).
unfoldable pub insert_chunk : Chunk → Statement Chunk
insert_chunk c w db =
    if not (length c.embedding == 1024)
    then err (plain "expected 1024 dimensions")
    else if exists (conflicts c) db.chunks
    then err unique_violation
    else ok (c, record db { chunks = db.chunks ++ c ∷ [] })

-- The videos that a search may answer from.
abbrev pub is_searched : World → Db → String → Option Text → Chunk → Video → Bool
is_searched w db tenant_id segment c v =
    str_eq v.id c.video_id
    && str_eq (status_text v.status) "completed"
    && is_live v
    && in_segment w db tenant_id segment v

abbrev pub with_title : Chunk → Option Video → List (Chunk × Text) → List (Chunk × Text)
with_title c (some v) rows = (c, v.title) ∷ rows
with_title c none rows = rows

-- `FROM chunks c JOIN videos v ON v.id = c.video_id WHERE …`; ids are unique, so that a chunk has one
-- video at most.
unfoldable pub hits : World → Db → String → Option Text → List Chunk → List (Chunk × Text)
hits w db tenant_id segment [] = []
hits w db tenant_id segment (c ∷ chunks) =
    let later = hits w db tenant_id segment chunks in
    if str_eq c.tenant_id tenant_id
    then with_title c (select_one (is_searched w db tenant_id segment c) db.videos) later
    else later

-- `SearchChunks`: the chunks with the titles of their videos, nearest first.
unfoldable pub search_chunks : String → Option Text → Vector → ℕ → Statement (List (Chunk × Text))
unfolding hits
search_chunks tenant_id segment embedding limit w db =
    let rows =
      order_by (λ (h : Chunk × Text). w.env.distance h.0.embedding embedding)
        (hits w db tenant_id segment db.chunks) in
    ok (take limit rows, db)

-- `GetSummaryByVideoID`.
unfoldable pub get_summary_by_video_id : String → String → Statement Summary
get_summary_by_video_id video_id tenant_id w db =
    one
      (select_one (λ (s : Summary). str_eq s.video_id video_id && str_eq s.tenant_id tenant_id)
        db.summaries)
      db

-- What `ON CONFLICT (video_id) DO UPDATE` keeps of the old row; `updated_at` is set by a trigger.
abbrev pub merged_summary : Summary → ℕ → Summary → Summary
merged_summary new now old = record old {
  status = new.status;
  content = new.content;
  language = new.language;
  model = new.model;
  error_message = new.error_message;
  updated_at = now;
}

abbrev pub upserted_summary : Summary → ℕ → Option Summary → Db → Result (Summary × Db)
upserted_summary s now (some old) db = ok (
  merged_summary s now old,
  record db {
    summaries =
        update (λ (r : Summary). str_eq r.video_id s.video_id) (merged_summary s now) db.summaries;
  },
)
upserted_summary s now none db =
    if exists (λ (r : Summary). str_eq r.id s.id) db.summaries
    then err unique_violation
    else ok (s, record db { summaries = db.summaries ++ s ∷ [] })

-- `UpsertSummary`.
unfoldable pub upsert_summary : Summary → Statement Summary
upsert_summary s w db =
    upserted_summary s (now_of w)
      (select_one (λ (r : Summary). str_eq r.video_id s.video_id) db.summaries) db
