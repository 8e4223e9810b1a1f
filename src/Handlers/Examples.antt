-- ===== src/Handlers/Examples.antt =====
-- A video that is deleted, and a request with a key.
use learn_rag.Common.{◌≡◌, refl, String, false, true, none, some, [], ◌∷◌}
use text.Mathlib.Text.{◌==◌ as str_eq}
use learn_rag.Common.Assoc.{lookup}
use learn_rag.Common.Text.{codes}
use learn_rag.Errors.{api, err_not_found}
use learn_rag.Result.{ok}
use learn_rag.Model.{ApiKey, Video, VideoStatus, Kind}
use learn_rag.Database.{World}
use learn_rag.Database.Sample.{empty_db, sample_world}
use learn_rag.Database.Table.{select_one, update}
use learn_rag.Bucket.{TokenBucket, allow, new_token_bucket, take_token, refill_bucket, bucket_of}
use learn_rag.Queries.Keys.{is_active_key}
use learn_rag.Repo.Cleanup.{IsClean, delete_by_job_id-IsClean}
use learn_rag.Repo.Videos.{delete_by_job_id}
use learn_rag.Handlers.{Identity, json, Handler, write_error}
use learn_rag.Handlers.Access.{limit_key, serve}
use learn_rag.Handlers.Admission.{serve-admitted}
use learn_rag.Handlers.Deletion.{delete_video-gone}
use learn_rag.Handlers.Videos.{delete_video_handler, get_video_handler}

abbrev admin : Identity
admin = record { tenant_id = "t1"; api_key_id = "k1" }

abbrev video : Video
video = record {
  id = "v1";
  tenant_id = "t1";
  job_id = "j1";
  title = codes "Intro";
  kind = Kind.video;
  file_key = "k";
  status = VideoStatus.completed;
  duration_seconds = none;
  deleted_at = none;
  created_at = 1;
  updated_at = 2;
}

abbrev key : ApiKey
key = record {
  id = "k1";
  tenant_id = "t1";
  name = "n";
  key_hash = "secret";
  scope = "admin";
  revoked_at = none;
  last_used_at = none;
  created_at = 1;
  updated_at = 1;
}

abbrev world : World
world = sample_world 10 (λ _. "u") (record empty_db { videos = video ∷ []; api_keys = key ∷ [] })

abbrev after : World
after = (delete_video_handler admin "v1" world).1

deleted :
    delete_video_handler admin "v1" world
    ≡ (json 200 (record { id = "v1"; deleted_at = 10 }), after)
unfolding delete_video_handler select_one update
deleted = refl

delete_video-gone_example : (get_video_handler admin "v1" after).0 ≡ write_error (api err_not_found)
unfolding delete_video_handler select_one
delete_video-gone_example =
    delete_video-gone admin "v1" world deleted admin after refl refl (λ n. refl)

abbrev remaining : World
remaining = (delete_by_job_id "j1" "t1" world).1

cleaned : delete_by_job_id "j1" "t1" world ≡ (ok tt, remaining)
unfolding delete_by_job_id
cleaned = refl

delete_by_job_id-IsClean_example : IsClean "j1" "t1" world.db remaining.db
delete_by_job_id-IsClean_example = delete_by_job_id-IsClean "j1" "t1" world cleaned

abbrev whoami : Identity → Handler String
whoami identity w = (json 200 identity.tenant_id, w)

abbrev limiter : TokenBucket
limiter = new_token_bucket 2 0 1

admitted_request : (serve (λ s. s) "secret" "admin" "ip" 0 whoami limiter world).0 ≡ json 200 "t1"
unfolding serve select_one update new_token_bucket take_token refill_bucket bucket_of lookup
admitted_request = refl

serve-admitted_example :
    (str_eq "secret" "" ≡ false)
    × (k : ApiKey) × (select_one (is_active_key "secret") world.db.api_keys ≡ some k)
    × (k.scope ≡ "admin")
    × ((allow (limit_key "admin" "ip" k.id) 0 limiter).1 ≡ true)
    × (v : World) × ((whoami (record { tenant_id = k.tenant_id; api_key_id = k.id }) v).0
        ≡ json 200 "t1")
serve-admitted_example =
    serve-admitted (λ s. s) "secret" "admin" "ip" 0 whoami limiter world admitted_request
