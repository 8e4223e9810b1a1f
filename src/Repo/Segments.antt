-- ===== src/Repo/Segments.antt =====
-- internal/database/repo/segments.go.
use learn_rag.Common.{String, List, [], ◌∷◌}
use learn_rag.Common.Text.{Text}
use learn_rag.Errors.{api, err_not_found}
use learn_rag.Model.{Segment}
use learn_rag.Database.{M, ◌>>=◌, ◌>>◌, return, map_err, exec, with_tenant_tx, new_uuid, time_now}
use learn_rag.Queries.Segments.{
  ensure_segment_by_name, attach_video_segment, list_segment_names_by_job_id,
  list_segment_names_by_video_id,
}
use learn_rag.Repo.{map_no_rows}
use learn_rag.Repo.Jobs.{attach_each}

-- `EnsureByName`.
unfoldable pub ensure_by_name : String → Text → M Segment
unfolding with_tenant_tx exec ensure_segment_by_name map_no_rows new_uuid time_now
ensure_by_name tenant_id name = map_err (map_no_rows (api err_not_found)) (
    with_tenant_tx tenant_id (do
      id ← new_uuid
      now ← time_now
      exec (
          ensure_segment_by_name
            (record { id = id; tenant_id = tenant_id; name = name; created_at = now }))))

-- `AttachJobSegments`.
unfoldable pub attach_job_segments : String → String → List String → M (Unit {0})
unfolding with_tenant_tx attach_each
attach_job_segments job_id tenant_id segment_ids =
    with_tenant_tx tenant_id (attach_each job_id tenant_id segment_ids)

unfoldable pub attach_each_video : String → String → List String → M (Unit {0})
unfolding exec attach_video_segment
attach_each_video video_id tenant_id [] = return tt
attach_each_video video_id tenant_id (sid ∷ segment_ids) = do
  exec (
      attach_video_segment
        (record { owner_id = video_id; segment_id = sid; tenant_id = tenant_id }))
  attach_each_video video_id tenant_id segment_ids

-- `AttachVideoSegments`.
unfoldable pub attach_video_segments : String → String → List String → M (Unit {0})
unfolding with_tenant_tx attach_each_video
attach_video_segments video_id tenant_id segment_ids =
    with_tenant_tx tenant_id (attach_each_video video_id tenant_id segment_ids)

-- `ListNamesByJobID`.
unfoldable pub list_names_by_job_id : String → String → M (List Text)
unfolding with_tenant_tx exec list_segment_names_by_job_id
list_names_by_job_id job_id tenant_id =
    with_tenant_tx tenant_id (exec (list_segment_names_by_job_id job_id tenant_id))

-- `ListNamesByVideoID`.
unfoldable pub list_names_by_video_id : String → String → M (List Text)
unfolding with_tenant_tx exec list_segment_names_by_video_id
list_names_by_video_id video_id tenant_id =
    with_tenant_tx tenant_id (exec (list_segment_names_by_video_id video_id tenant_id))
