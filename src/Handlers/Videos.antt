-- ===== src/Handlers/Videos.antt =====
-- internal/httpapi/handlers/video.go: the endpoints of videos.
use learn_rag.Common.{ℕ, String, Bool, false, Option, none, some, List, map, if◌then◌else◌}
use text.Mathlib.Text.{◌==◌ as str_eq}
use learn_rag.Common.Text.{Text}
use learn_rag.Errors.{Err, as_api, err_not_found}
use learn_rag.Result.{Result, ok, err}
use learn_rag.Model.{Video, Summary, SummaryStatus}
use learn_rag.Database.{World, M, ◌>>=◌, return}
use learn_rag.Repo.Videos
use learn_rag.Repo.Contents.{get_summary}
use learn_rag.Handlers.{Identity, json, Handler, write_error, respond, insert_audit, audited}
use learn_rag.Handlers.Jobs.{with_pages}
use learn_rag.Handlers.Pages.{pagination}

-- `VideoResponse`: the fields of the video, and its segment names.
pub record VideoResponse : Type 0 where
  pub video : Video
  pub segments : List Text

-- `toVideoResponse`.
abbrev pub to_video_response : Video × List Text → VideoResponse
to_video_response (v, segments) = record { video = v; segments = segments }

-- `ListVideosResponse`, with its `Meta`.
pub record ListVideosResponse : Type 0 where
  pub data_rows : List VideoResponse
  pub page : ℕ
  pub limit : ℕ
  pub total : ℕ

unfoldable pub list_videos_body : String → Text → String → ℕ × ℕ → M ListVideosResponse
unfolding Videos.list Videos.count
list_videos_body tenant_id segment status (page, limit) = do
  videos ← Videos.list tenant_id segment status page limit
  total ← Videos.count tenant_id segment status
  return (record {
    data_rows = map to_video_response videos;
    page = page;
    limit = limit;
    total = total;
  })

-- `ListVideos`, of the query parameters.
unfoldable pub list_videos_handler :
    Identity → Text → String → Text → Text → Handler ListVideosResponse
unfolding list_videos_body pagination write_error
list_videos_handler identity segment status page_query limit_query =
    with_pages (pagination page_query limit_query) λ pages w.
      respond (λ body w. (json 200 body, w))
        (list_videos_body identity.tenant_id segment status pages w)

-- `SummaryResponse`.
pub record SummaryResponse : Type 0 where
  pub id : String
  pub status : SummaryStatus
  pub content : Option Text
  pub language : Option String
  pub model : Option String
  pub created_at : ℕ
  pub updated_at : ℕ

-- `toSummaryResponse`.
abbrev pub to_summary_response : Summary → SummaryResponse
to_summary_response s = record {
  id = s.id;
  status = s.status;
  content = s.content;
  language = s.language;
  model = s.model;
  created_at = s.created_at;
  updated_at = s.updated_at;
}

-- `VideoDetailResponse`.
pub record VideoDetailResponse : Type 0 where
  pub video : VideoResponse
  pub summary : Option SummaryResponse

-- `errors.Is(err, apierrors.ErrNotFound)`: the first API error on the chain is that one.
unfoldable pub is_not_found : Err → Bool
unfolding as_api
is_not_found e = elim (as_api e) [
  | none ↦ false
  | some target ↦ str_eq target.code err_not_found.code
]

-- A summary that is missing is no error.
abbrev pub optional_summary : Result Summary × World → Result (Option SummaryResponse) × World
optional_summary (ok s, w) = (ok (some (to_summary_response s)), w)
optional_summary (err e, w) = ((if is_not_found e then ok none else err e), w)

unfoldable pub get_video_body : String → String → M VideoDetailResponse
unfolding Videos.get_by_id get_summary is_not_found
get_video_body tenant_id video_id = do
  video ← Videos.get_by_id video_id tenant_id
  summary ← λ w. optional_summary (get_summary video_id tenant_id w)
  return (record { video = to_video_response video; summary = summary })

-- `GetVideo`.
unfoldable pub get_video_handler : Identity → String → Handler VideoDetailResponse
unfolding get_video_body write_error
get_video_handler identity video_id w =
    respond (λ body w. (json 200 body, w)) (get_video_body identity.tenant_id video_id w)

-- `DeleteVideoResponse`.
pub record DeleteVideoResponse : Type 0 where
  pub id : String
  pub deleted_at : ℕ

-- `DeleteVideo`.
unfoldable pub delete_video_handler : Identity → String → Handler DeleteVideoResponse
unfolding Videos.soft_delete insert_audit write_error
delete_video_handler identity video_id w =
    respond
      (λ deleted_at w.
        audited 200 (record { id = video_id; deleted_at = deleted_at })
          (insert_audit identity "video.delete" (some video_id) w))
      (Videos.soft_delete video_id identity.tenant_id w)
