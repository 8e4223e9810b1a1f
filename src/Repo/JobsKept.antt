-- ===== src/Repo/JobsKept.antt =====
-- The calls of internal/database/repo that leave the table of jobs alone.
use mathlib.Core.Path.{subst}
use text.Mathlib.Text.{◌==◌ as str_eq}
use learn_rag.Common.{
  ◌≡◌, sym, arith, ℕ, Bool, Bool-cases, inl, inr, if◌then◌else◌, String, List, [], ◌∷◌, none, some,
  Option,
}
use learn_rag.Common.Text.{Text}
use learn_rag.Errors.{api, err_not_found}
use learn_rag.Result.{ok, err}
use learn_rag.Model.{Job, Video, VideoStatus, Transcript, Chunk, Summary}
use learn_rag.Database.{Db, World, Statement, exec}
use learn_rag.Database.Keeps.{
  Keeps, bind-Keeps, then-Keeps, return-Keeps, map_err-Keeps, exec-Keeps, with_tenant_tx-Keeps,
  new_uuid-Keeps, time_now-Keeps,
}
use learn_rag.Database.Table.{select_one}
use learn_rag.Queries.Jobs.{now_of}
use learn_rag.Queries.Segments.{
  ensure_segment_by_name, attach_video_segment, list_segment_names_by_job_id,
}
use learn_rag.Queries.Videos.{
  create_video, delete_video_by_job_id, fail_video_by_job_id, update_video_status,
}
use learn_rag.Queries.Contents.{
  upsert_transcript, upserted_transcript, invalid_uuid, insert_chunk, upsert_summary,
  upserted_summary,
}
use learn_rag.Repo.{map_no_rows}
use learn_rag.Repo.Segments.{
  ensure_by_name, attach_each_video, attach_video_segments, list_names_by_job_id,
}
use learn_rag.Repo.Videos
use learn_rag.Repo.Contents.{save_transcript, insert_each, insert_chunks, save_summary}

-- What is said of the tables through the jobs alone.
abbrev pub OnJobs : (List Job → Type 0) → Db → Type 0
OnJobs Q db = Q db.jobs

-- A statement that leaves the jobs alone when it succeeds.
exec_other :
    (Q : List Job → Type 0) {A : Type 0} (body : Statement A)
    → ((w : World) (db : Db) (a : A) (db' : Db) → body w db ≡ ok (a, db') → db'.jobs ≡ db.jobs)
    → Keeps (OnJobs Q) (exec body)
exec_other Q body same = exec-Keeps body λ w db a db' h p. subst Q (sym (same w db a db' h)) p

module _ (Q : List Job → Type 0) where
  pub ensure_by_name-Keeps :
      (tenant_id : String) (name : Text) → Keeps (OnJobs Q) (ensure_by_name tenant_id name)
  unfolding ensure_by_name ensure_segment_by_name
  ensure_by_name-Keeps tenant_id name = map_err-Keeps (map_no_rows (api err_not_found)) (
      with_tenant_tx-Keeps tenant_id (
        bind-Keeps new_uuid-Keeps λ id. bind-Keeps time_now-Keeps λ now.
          exec_other Q
            (ensure_segment_by_name
              (record { id = id; tenant_id = tenant_id; name = name; created_at = now }))
            (λ w db a db' h. ground arith)))

  attach_each_video-Keeps :
      (video_id tenant_id : String) (segment_ids : List String)
      → Keeps (OnJobs Q) (attach_each_video video_id tenant_id segment_ids)
  unfolding attach_each_video attach_video_segment
  attach_each_video-Keeps video_id tenant_id [] = return-Keeps {a = tt}
  attach_each_video-Keeps video_id tenant_id (sid ∷ segment_ids) =
      then-Keeps
        (exec_other Q
          (attach_video_segment
            (record { owner_id = video_id; segment_id = sid; tenant_id = tenant_id }))
          (λ w db a db' h. ground arith))
        (attach_each_video-Keeps video_id tenant_id segment_ids)

  pub attach_video_segments-Keeps :
      (video_id tenant_id : String) (segment_ids : List String)
      → Keeps (OnJobs Q) (attach_video_segments video_id tenant_id segment_ids)
  unfolding attach_video_segments
  attach_video_segments-Keeps video_id tenant_id segment_ids =
      with_tenant_tx-Keeps tenant_id (attach_each_video-Keeps video_id tenant_id segment_ids)

  pub list_names_by_job_id-Keeps :
      (job_id tenant_id : String) → Keeps (OnJobs Q) (list_names_by_job_id job_id tenant_id)
  unfolding list_names_by_job_id list_segment_names_by_job_id
  list_names_by_job_id-Keeps job_id tenant_id =
      with_tenant_tx-Keeps tenant_id
        (exec_other Q (list_segment_names_by_job_id job_id tenant_id) λ w db a db' h. ground arith)

  pub create_video-Keeps : (v : Video) → Keeps (OnJobs Q) (Videos.create v)
  unfolding Videos.create create_video
  create_video-Keeps v = with_tenant_tx-Keeps v.tenant_id (
      then-Keeps (exec_other Q (create_video v) λ w db a db' h. ground arith)
        (return-Keeps {a = tt}))

  pub delete_by_job_id-Keeps :
      (job_id tenant_id : String) → Keeps (OnJobs Q) (Videos.delete_by_job_id job_id tenant_id)
  unfolding Videos.delete_by_job_id delete_video_by_job_id
  delete_by_job_id-Keeps job_id tenant_id =
      with_tenant_tx-Keeps tenant_id
        (exec_other Q (delete_video_by_job_id job_id tenant_id) λ w db a db' h. ground arith)

  pub fail_by_job_id-Keeps :
      (job_id tenant_id : String) → Keeps (OnJobs Q) (Videos.fail_by_job_id job_id tenant_id)
  unfolding Videos.fail_by_job_id fail_video_by_job_id
  fail_by_job_id-Keeps job_id tenant_id =
      with_tenant_tx-Keeps tenant_id
        (exec_other Q (fail_video_by_job_id job_id tenant_id) λ w db a db' h. ground arith)

  pub update_video-Keeps :
      (id tenant_id : String) (status : VideoStatus)
      → Keeps (OnJobs Q) (Videos.update_status id tenant_id status)
  unfolding Videos.update_status update_video_status
  update_video-Keeps id tenant_id status = with_tenant_tx-Keeps tenant_id (
      then-Keeps
        (exec_other Q (update_video_status id tenant_id status) λ w db a db' h. ground arith)
        (return-Keeps {a = tt}))

  pub save_transcript-Keeps : (t : Transcript) → Keeps (OnJobs Q) (save_transcript t)
  unfolding save_transcript upsert_transcript
  save_transcript-Keeps t = with_tenant_tx-Keeps t.tenant_id (
      then-Keeps
        (exec_other Q (upsert_transcript t) λ w db a db' h.
          by_row (select_one (λ (r : Transcript). str_eq r.video_id t.video_id) db.transcripts) db a
            db' (by_id w.env.valid_uuid db a db' h))
        (return-Keeps {a = tt}))
    where
      by_id :
          (valid : String → Bool) (db : Db) (a : Transcript) (db' : Db)
          → (if valid t.id
              then upserted_transcript t
                  (select_one (λ (r : Transcript). str_eq r.video_id t.video_id) db.transcripts)
                  db
              else err invalid_uuid)
            ≡ ok (a, db')
          → upserted_transcript t
              (select_one (λ (r : Transcript). str_eq r.video_id t.video_id) db.transcripts)
              db
            ≡ ok (a, db')
      by_id valid db a db' h = elim (Bool-cases (valid t.id)) [
        | inl yes_ ↦ ground arith
        | inr no_ ↦ ground arith
      ]

      by_row :
          (old : Option Transcript) (db : Db) (a : Transcript) (db' : Db)
          → upserted_transcript t old db ≡ ok (a, db')
          → db'.jobs ≡ db.jobs
      by_row (some old) db a db' h = ground arith
      by_row none db a db' h = ground arith

  insert_each-Keeps : (chunks : List Chunk) → Keeps (OnJobs Q) (insert_each chunks)
  unfolding insert_each insert_chunk
  insert_each-Keeps [] = return-Keeps {a = tt}
  insert_each-Keeps (c ∷ chunks) =
      then-Keeps (exec_other Q (insert_chunk c) λ w db a db' h. ground arith)
        (insert_each-Keeps chunks)

  pub insert_chunks-Keeps : (chunks : List Chunk) → Keeps (OnJobs Q) (insert_chunks chunks)
  unfolding insert_chunks
  insert_chunks-Keeps [] = return-Keeps {a = tt}
  insert_chunks-Keeps (c ∷ chunks) =
      with_tenant_tx-Keeps c.tenant_id (insert_each-Keeps (c ∷ chunks))

  pub save_summary-Keeps : (s : Summary) → Keeps (OnJobs Q) (save_summary s)
  unfolding save_summary upsert_summary
  save_summary-Keeps s = with_tenant_tx-Keeps s.tenant_id (
      then-Keeps (exec_other Q (upsert_summary s) λ w db a db' h. by_row _ (now_of w) db a db' h)
        (return-Keeps {a = tt}))
    where
      by_row :
          (old : Option Summary) (now : ℕ) (db : Db) (a : Summary) (db' : Db)
          → upserted_summary s now old db ≡ ok (a, db')
          → db'.jobs ≡ db.jobs
      by_row (some old) now db a db' h = ground arith
      by_row none now db a db' h = ground arith
