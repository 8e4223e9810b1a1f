-- ===== src/Rager/Examples.antt =====
-- A question with one hit in a segment, and a chunk of a deleted video that is no hit.
use learn_rag.Common.{String, none, some, [], ◌∷◌, ◌++◌}
use learn_rag.Common.Text.{Text, codes}
use learn_rag.Model.{Chunk, Video, VideoStatus, Kind}
use learn_rag.Database.{World}
use learn_rag.Database.Sample.{empty_db, sample_world}
use learn_rag.Rager.{QueryResult, answer}

abbrev video : String → Video
video id = record {
  id = id;
  tenant_id = "t1";
  job_id = "j1";
  title = codes "Intro";
  kind = Kind.video;
  file_key = "k";
  status = VideoStatus.completed;
  duration_seconds = none;
  deleted_at = none;
  created_at = 1;
  updated_at = 2;
}

abbrev stored_chunk : String → String → Chunk
stored_chunk id video_id = record {
  id = id;
  tenant_id = "t1";
  video_id = video_id;
  chunk_index = 12;
  content = codes "One. Two.";
  created_at = 1;
  embedding = 1 ∷ [];
}

abbrev world : World
world =
    sample_world 10 (λ _. "u")
      (record empty_db {
        videos = video "v1" ∷ record (video "v2") { deleted_at = some 3 } ∷ [];
        chunks = stored_chunk "c1" "v1" ∷ stored_chunk "c2" "v2" ∷ [];
        segments = record { id = "s1"; tenant_id = "t1"; name = codes "a"; created_at = 1 } ∷ [];
        video_segments = record { owner_id = "v1"; segment_id = "s1"; tenant_id = "t1" } ∷ [];
      })

abbrev result : QueryResult
result = record {
  answer = some (
      codes "<documents>"
      ++ (10 ∷ codes "Video: Intro")
      ++ (10 ∷ codes "Chunk 12:")
      ++ (10 ∷ codes "One. Two.")
      ++ (10 ∷ 10 ∷ codes "</documents>")
      ++ (10 ∷ codes "Pertanyaan: Why?"));
  references =
      record {
        video_id = "v1";
        video_title = codes "Intro";
        chunk_index = 12;
        snippet = codes "One. Two.";
        segments = codes "a" ∷ [];
      }
      ∷ [];
}
