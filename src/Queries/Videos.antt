-- ===== src/Queries/Videos.antt =====
-- internal/database/queries/videos.sql.go.
use text.Mathlib.Text.{◌==◌ as str_eq}
use mathlib.Core.List.{reverse}
use learn_rag.Common.{
  ℕ, String, Bool, true, not, ◌&&◌, ◌||◌, Option, none, some, List, [], ◌∷◌, ◌++◌, if◌then◌else◌,
  is_some,
}
use learn_rag.Common.Int.{ℤ}
use learn_rag.Common.Text.{Text}
use learn_rag.Errors.{no_rows}
use learn_rag.Result.{Result, ok, err}
use learn_rag.Model.{Video, VideoStatus, Segment, SegmentLink, Transcript, Chunk, Summary}
use learn_rag.Database.{Db, World, Statement}
use learn_rag.Database.Table.{select_one, select_all, update, delete, exists, order_by, count_rows}
use learn_rag.Queries.{one, unique_violation, page_of}
use learn_rag.Queries.Jobs.{now_of}
use learn_rag.Queries.Segments.{text_eq}

abbrev pub status_text : VideoStatus → String
status_text VideoStatus.processing = "processing"
status_text VideoStatus.completed = "completed"
status_text VideoStatus.failed = "failed"

-- `deleted_at IS NULL`.
abbrev pub is_live : Video → Bool
is_live v = not (is_some v.deleted_at)

-- `WHERE id = $1 AND tenant_id = $2`.
abbrev pub is_video : String → String → Video → Bool
is_video id tenant_id v = str_eq v.id id && str_eq v.tenant_id tenant_id

-- `WHERE job_id = $1 AND tenant_id = $2`.
abbrev pub is_video_of : String → String → Video → Bool
is_video_of job_id tenant_id v = str_eq v.job_id job_id && str_eq v.tenant_id tenant_id

-- The segments of the tenant with the name, and the links of the video to one of them.
abbrev pub has_segment : World → Db → String → Text → Video → Bool
has_segment w db tenant_id name v =
    exists
      (λ (s : Segment).
        str_eq s.tenant_id tenant_id
        && text_eq (w.env.lower s.name) (w.env.lower name)
        && exists (λ (l : SegmentLink). str_eq l.segment_id s.id && str_eq l.owner_id v.id)
            db.video_segments)
      db.segments

-- `($3::text IS NULL OR EXISTS (…))`.
abbrev pub in_segment : World → Db → String → Option Text → Video → Bool
in_segment w db tenant_id none v = true
in_segment w db tenant_id (some name) v = has_segment w db tenant_id name v

abbrev status_is : Option String → Video → Bool
status_is none v = true
status_is (some s) v = str_eq (status_text v.status) s

-- The condition that `CountVideos` and `ListVideos` share.
abbrev pub is_listed : World → Db → String → Option String → Option Text → Video → Bool
is_listed w db tenant_id status segment v =
    str_eq v.tenant_id tenant_id
    && is_live v
    && status_is status v
    && in_segment w db tenant_id segment v

-- `CountVideos`.
unfoldable pub count_videos : String → Option String → Option Text → Statement ℕ
count_videos tenant_id status segment w db =
    ok (count_rows (select_all (is_listed w db tenant_id status segment) db.videos), db)

-- The primary key and the UNIQUE columns job_id and file_key.
abbrev pub conflicts : Video → Video → Bool
conflicts new old =
    str_eq old.id new.id || str_eq old.job_id new.job_id || str_eq old.file_key new.file_key

-- `CreateVideo`.
unfoldable pub create_video : Video → Statement Video
create_video v w db =
    if exists (conflicts v) db.videos
    then err unique_violation
    else ok (v, record db { videos = db.videos ++ v ∷ [] })

-- `ON DELETE CASCADE`: the rows that belong to one of the deleted videos.
abbrev pub belongs_to : List Video → String → Bool
belongs_to gone video_id = exists (λ (v : Video). str_eq v.id video_id) gone

-- `DeleteVideoByJobID`, with the rows of the four tables that refer to a video.
unfoldable pub delete_video_by_job_id : String → String → Statement (Unit {0})
delete_video_by_job_id job_id tenant_id w db =
    let gone = select_all (is_video_of job_id tenant_id) db.videos in
    ok (
      tt,
      record db {
        videos = delete (is_video_of job_id tenant_id) db.videos;
        video_segments = delete (λ (l : SegmentLink). belongs_to gone l.owner_id) db.video_segments;
        transcripts = delete (λ (t : Transcript). belongs_to gone t.video_id) db.transcripts;
        chunks = delete (λ (c : Chunk). belongs_to gone c.video_id) db.chunks;
        summaries = delete (λ (s : Summary). belongs_to gone s.video_id) db.summaries;
      },
    )

-- The values that a change of status sets; `updated_at` is set by a trigger.
abbrev pub marked : VideoStatus → ℕ → Video → Video
marked status now v = record v { status = status; updated_at = now }

-- `FailVideoByJobID`.
unfoldable pub fail_video_by_job_id : String → String → Statement (Unit {0})
fail_video_by_job_id job_id tenant_id w db = ok (
  tt,
  record db {
    videos = update (is_video_of job_id tenant_id) (marked VideoStatus.failed (now_of w)) db.videos;
  },
)

-- `WHERE id = $1 AND tenant_id = $2 AND deleted_at IS NULL`.
abbrev pub is_live_video : String → String → Video → Bool
is_live_video id tenant_id v = is_video id tenant_id v && is_live v

-- `GetVideoByID`.
unfoldable pub get_video_by_id : String → String → Statement Video
get_video_by_id id tenant_id w db = one (select_one (is_live_video id tenant_id) db.videos) db

-- `ListVideos`, newest first.
unfoldable pub list_videos : String → Option String → Option Text → ℤ → ℕ → Statement (List Video)
list_videos tenant_id status segment offset limit w db =
    let chosen = select_all (is_listed w db tenant_id status segment) db.videos in
    page_of offset limit (reverse (order_by (λ (v : Video). v.created_at) chosen)) db

-- `UPDATE videos SET … WHERE … RETURNING …`.
abbrev pub updated : Option Video → (Video → Video) → (Video → Bool) → Db → Result (Video × Db)
updated (some v) change test db = ok (change v, record db { videos = update test change db.videos })
updated none change test db = err no_rows

-- The values that a soft deletion sets.
abbrev pub deleted : ℕ → Video → Video
deleted now v = record v { deleted_at = some now; updated_at = now }

-- `SoftDeleteVideo`.
unfoldable pub soft_delete_video : String → String → Statement Video
soft_delete_video id tenant_id w db =
    let test = is_live_video id tenant_id in
    updated (select_one test db.videos) (deleted (now_of w)) test db

-- `UpdateVideoStatus`.
unfoldable pub update_video_status : String → String → VideoStatus → Statement Video
update_video_status id tenant_id status w db =
    let test = is_video id tenant_id in
    updated (select_one test db.videos) (marked status (now_of w)) test db
