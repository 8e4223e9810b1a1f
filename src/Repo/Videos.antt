-- ===== src/Repo/Videos.antt =====
-- internal/database/repo/videos.go. A video is given with the names of its segments.
use learn_rag.Common.{ℕ, String, Option, none, some, List, [], ◌∷◌, if◌then◌else◌}
use learn_rag.Common.Text.{Text, is_empty}
use learn_rag.Errors.{api, err_not_found}
use learn_rag.Model.{Video, VideoStatus}
use learn_rag.Database.{M, ◌>>=◌, ◌>>◌, return, map_err, exec, with_tenant_tx}
use learn_rag.Queries.Segments.{list_segment_names_by_video_id}
use learn_rag.Queries.Videos.{
  count_videos, create_video, delete_video_by_job_id, fail_video_by_job_id, get_video_by_id,
  list_videos, soft_delete_video, update_video_status,
}
use learn_rag.Repo.{map_no_rows, optional_text, list_offset}

-- `optionalText`, of a text.
abbrev pub optional_name : Text → Option Text
optional_name s = if is_empty s then none else some s

-- `Create`.
unfoldable pub create : Video → M (Unit {0})
unfolding with_tenant_tx exec create_video
create video = with_tenant_tx video.tenant_id (do exec (create_video video); return tt)

-- `withSegments`.
unfoldable pub with_segments : Video → M (Video × List Text)
unfolding exec list_segment_names_by_video_id
with_segments row = do
  names ← exec (list_segment_names_by_video_id row.id row.tenant_id)
  return (row, names)

-- `GetByID`.
unfoldable pub get_by_id : String → String → M (Video × List Text)
unfolding with_tenant_tx exec get_video_by_id with_segments map_no_rows
get_by_id id tenant_id =
    map_err (map_no_rows (api err_not_found))
      (with_tenant_tx tenant_id (do row ← exec (get_video_by_id id tenant_id); with_segments row))

-- The loop of `List`.
unfoldable pub with_segments_each : List Video → M (List (Video × List Text))
unfolding with_segments
with_segments_each [] = return []
with_segments_each (row ∷ rows) = do
  video ← with_segments row
  videos ← with_segments_each rows
  return (video ∷ videos)

-- `List`; an empty segment name or status is no filter.
unfoldable pub list : String → Text → String → ℕ → ℕ → M (List (Video × List Text))
unfolding with_tenant_tx exec list_videos with_segments_each list_offset
list tenant_id segment_name status page limit = with_tenant_tx tenant_id (do
  rows ← exec (
      list_videos tenant_id (optional_text status) (optional_name segment_name)
        (list_offset page limit) limit)
  with_segments_each rows)

-- `Count`.
unfoldable pub count : String → Text → String → M ℕ
unfolding with_tenant_tx exec count_videos
count tenant_id segment_name status =
    with_tenant_tx tenant_id
      (exec (count_videos tenant_id (optional_text status) (optional_name segment_name)))

-- `row.DeletedAt.Time`, the zero time for NULL.
abbrev pub time_of : Option ℕ → ℕ
time_of (some t) = t
time_of none = 0

-- `SoftDelete`: the time of the deletion.
unfoldable pub soft_delete : String → String → M ℕ
unfolding with_tenant_tx exec soft_delete_video map_no_rows
soft_delete id tenant_id = with_tenant_tx tenant_id (do
  row ← map_err (map_no_rows (api err_not_found)) (exec (soft_delete_video id tenant_id))
  return (time_of row.deleted_at))

-- `UpdateStatus`.
unfoldable pub update_status : String → String → VideoStatus → M (Unit {0})
unfolding with_tenant_tx exec update_video_status
update_status id tenant_id status =
    with_tenant_tx tenant_id (do exec (update_video_status id tenant_id status); return tt)

-- `DeleteByJobID`.
unfoldable pub delete_by_job_id : String → String → M (Unit {0})
unfolding with_tenant_tx exec delete_video_by_job_id
delete_by_job_id job_id tenant_id =
    with_tenant_tx tenant_id (exec (delete_video_by_job_id job_id tenant_id))

-- `FailByJobID`.
unfoldable pub fail_by_job_id : String → String → M (Unit {0})
unfolding with_tenant_tx exec fail_video_by_job_id
fail_by_job_id job_id tenant_id =
    with_tenant_tx tenant_id (exec (fail_video_by_job_id job_id tenant_id))
