-- ===== src/Queries/Segments.antt =====
-- internal/database/queries/segments.sql.go.
use text.Mathlib.Text.{◌==◌ as str_eq}
use learn_rag.Common.{
  String, Bool, true, false, ◌&&◌, ◌||◌, List, [], ◌∷◌, ◌++◌, if◌then◌else◌, ◌==◌, ltb,
}
use learn_rag.Common.Text.{Text}
use learn_rag.Result.{ok}
use learn_rag.Model.{Segment, SegmentLink}
use learn_rag.Database.{World, Statement}
use learn_rag.Database.Table.{select_one, exists}
use learn_rag.Queries.{one}

unfoldable pub text_eq : Text → Text → Bool
text_eq [] [] = true
text_eq [] (_ ∷ _) = false
text_eq (_ ∷ _) [] = false
text_eq (a ∷ s) (b ∷ t) = a == b && text_eq s t

-- `tenant_id = $2 AND lower(name) = lower($3)`, the key of a unique index.
abbrev pub is_named : World → String → Text → Segment → Bool
is_named w tenant_id name s =
    str_eq s.tenant_id tenant_id && text_eq (w.env.lower s.name) (w.env.lower name)

-- `EnsureSegmentByName`: the inserted row, or else the one that has the name already; a clash of ids
-- inserts nothing either.
unfoldable pub ensure_segment_by_name : Segment → Statement Segment
ensure_segment_by_name s w db =
    let taken = λ (old : Segment). str_eq old.id s.id || is_named w s.tenant_id s.name old in
    if exists taken db.segments
    then one (select_one (is_named w s.tenant_id s.name) db.segments) db
    else ok (s, record db { segments = db.segments ++ s ∷ [] })

abbrev pub same_link : SegmentLink → SegmentLink → Bool
same_link a b = str_eq a.owner_id b.owner_id && str_eq a.segment_id b.segment_id

-- The insertion of a link, `ON CONFLICT DO NOTHING`.
abbrev pub link : SegmentLink → List SegmentLink → List SegmentLink
link l links = if exists (same_link l) links then links else links ++ l ∷ []

-- `AttachJobSegment`.
unfoldable pub attach_job_segment : SegmentLink → Statement (Unit {0})
attach_job_segment l w db = ok (tt, record db { job_segments = link l db.job_segments })

-- `AttachVideoSegment`.
unfoldable pub attach_video_segment : SegmentLink → Statement (Unit {0})
attach_video_segment l w db = ok (tt, record db { video_segments = link l db.video_segments })

-- The order of texts, byte by byte, as `ORDER BY s.name` in the C collation.
unfoldable pub text_le : Text → Text → Bool
text_le [] t = true
text_le (_ ∷ _) [] = false
text_le (a ∷ s) (b ∷ t) = ltb a b || (a == b && text_le s t)

insert_name : Text → List Text → List Text
insert_name a [] = a ∷ []
insert_name a (b ∷ names) =
    let later = b ∷ insert_name a names in if text_le a b then a ∷ b ∷ names else later

unfoldable pub sort_names : List Text → List Text
unfolding insert_name text_le
sort_names [] = []
sort_names (a ∷ names) = insert_name a (sort_names names)

-- `FROM segments s JOIN links ON link.segment_id = s.id WHERE link.owner = … AND link.tenant_id = …`.
unfoldable pub names_of : String → String → List SegmentLink → List Segment → List Text
names_of owner_id tenant_id links [] = []
names_of owner_id tenant_id links (s ∷ segments) =
    let later = names_of owner_id tenant_id links segments in
    if exists
      (λ l. str_eq l.segment_id s.id && str_eq l.owner_id owner_id && str_eq l.tenant_id tenant_id)
      links
    then s.name ∷ later
    else later

-- `ListSegmentNamesByJobID`.
unfoldable pub list_segment_names_by_job_id : String → String → Statement (List Text)
list_segment_names_by_job_id job_id tenant_id w db =
    ok (sort_names (names_of job_id tenant_id db.job_segments db.segments), db)

-- `ListSegmentNamesByVideoID`.
unfoldable pub list_segment_names_by_video_id : String → String → Statement (List Text)
list_segment_names_by_video_id video_id tenant_id w db =
    ok (sort_names (names_of video_id tenant_id db.video_segments db.segments), db)
