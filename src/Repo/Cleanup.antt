-- ===== src/Repo/Cleanup.antt =====
-- The cleanup before a new run (`DeleteByJobID` of internal/database/repo/videos.go).
use mathlib.Core.List.{Memᴰ}
use mathlib.Core.Path.{subst}
use text.Mathlib.Text.{◌==◌ as str_eq}
use text.Mathlib.TextEquality.{eq_iff}
use learn_rag.Common.{suc, ◌≡◌, ◌↔◌, refl, sym, arith, Bool, true, String, List}
use learn_rag.Result.{ok}
use learn_rag.Model.{Video, SegmentLink, Transcript, Chunk, Summary}
use learn_rag.Database.{Db, World}
use learn_rag.Database.Membership.{
  fails_iff, delete_Mem, Mem_delete, Mem_select_all, exists_Mem, Mem_exists,
}
use learn_rag.Database.Outcome.{exec-Outcome, with_tenant_tx-Outcome}
use learn_rag.Database.Table.{select_all, delete}
use learn_rag.Queries.Videos.{is_video_of, belongs_to, delete_video_by_job_id}
use learn_rag.Repo.Claim.{select_all_Mem}
use learn_rag.Repo.Videos.{delete_by_job_id}

-- The video is the tenant's for the job.
abbrev pub IsOfJob : String → String → Video → Type 0
IsOfJob job_id tenant_id v = (v.job_id ≡ job_id) × (v.tenant_id ≡ tenant_id)

-- The id is that of a stored video that is the tenant's for the job.
abbrev pub BelongsToJob : String → String → Db → String → Type 0
BelongsToJob job_id tenant_id db id =
    (v : Video) × Memᴰ v db.videos × IsOfJob job_id tenant_id v × (v.id ≡ id)

-- The rows that are left are those that were there and that the deleted ones did not take along; the other tables are the same.
pub record IsClean (job_id tenant_id : String) (before after : Db) : Type 0 where
  pub videos :
      (v : Video) → Memᴰ v after.videos ↔ (Memᴰ v before.videos × (¬ IsOfJob job_id tenant_id v))
  pub links :
      (l : SegmentLink)
      → Memᴰ l after.video_segments
        ↔ (Memᴰ l before.video_segments × (¬ BelongsToJob job_id tenant_id before l.owner_id))
  pub transcripts :
      (t : Transcript)
      → Memᴰ t after.transcripts
        ↔ (Memᴰ t before.transcripts × (¬ BelongsToJob job_id tenant_id before t.video_id))
  pub chunks :
      (c : Chunk)
      → Memᴰ c after.chunks
        ↔ (Memᴰ c before.chunks × (¬ BelongsToJob job_id tenant_id before c.video_id))
  pub summaries :
      (s : Summary)
      → Memᴰ s after.summaries
        ↔ (Memᴰ s before.summaries × (¬ BelongsToJob job_id tenant_id before s.video_id))
  pub others : after ≡ record before {
    videos = after.videos;
    video_segments = after.video_segments;
    transcripts = after.transcripts;
    chunks = after.chunks;
    summaries = after.summaries;
  }

-- A deletion by a test that decides a predicate.
delete_left :
    {R : Type 0} {P : R → Type 0} (test : R → Bool) (rows : List R)
    → ((r : R) → (test r ≡ true) ↔ P r)
    → (r : R) → Memᴰ r (delete test rows) ↔ (Memᴰ r rows × (¬ P r))
delete_left test rows decides r = (
  λ m.
      let (stored, out) = delete_Mem test rows m in
      (stored, (fails_iff (test r) (decides r)).0 out),
  λ (stored, not_p). Mem_delete test rows stored ((fails_iff (test r) (decides r)).1 not_p),
)

is_video_of_iff :
    (job_id tenant_id : String) (v : Video)
    → (is_video_of job_id tenant_id v ≡ true) ↔ IsOfJob job_id tenant_id v
is_video_of_iff job_id tenant_id v =
    ground (arith, eq_iff v.job_id job_id, eq_iff v.tenant_id tenant_id)

belongs_to_iff :
    (job_id tenant_id : String) (db : Db) (id : String)
    → (belongs_to (select_all (is_video_of job_id tenant_id) db.videos) id ≡ true)
      ↔ BelongsToJob job_id tenant_id db id
belongs_to_iff job_id tenant_id db id =
    let test = is_video_of job_id tenant_id in
    (
      λ h.
          let (v, chosen, same) =
            exists_Mem (λ (v : Video). str_eq v.id id) (select_all test db.videos) h in
          let (stored, passes) = select_all_Mem test db.videos chosen in
          (v, stored, (is_video_of_iff job_id tenant_id v).0 passes, (eq_iff v.id id).0 same),
      λ (v, stored, of_job, same).
          Mem_exists (λ (v : Video). str_eq v.id id) (select_all test db.videos)
            (Mem_select_all test db.videos stored ((is_video_of_iff job_id tenant_id v).1 of_job))
            ((eq_iff v.id id).1 same),
    )

statement-IsClean :
    (job_id tenant_id : String) (w : World) (db db' : Db) (u : Unit {0})
    → delete_video_by_job_id job_id tenant_id w db ≡ ok (u, db')
    → IsClean job_id tenant_id db db'
unfolding delete_video_by_job_id
statement-IsClean job_id tenant_id w db db' u h =
    subst (λ after. IsClean job_id tenant_id db after) same
      record {
        videos =
            delete_left (is_video_of job_id tenant_id) db.videos (is_video_of_iff job_id tenant_id);
        links =
            delete_left (λ (l : SegmentLink). belongs_to gone l.owner_id) db.video_segments
              (λ l. belongs l.owner_id);
        transcripts =
            delete_left (λ (t : Transcript). belongs_to gone t.video_id) db.transcripts
              (λ t. belongs t.video_id);
        chunks =
            delete_left (λ (c : Chunk). belongs_to gone c.video_id) db.chunks
              (λ c. belongs c.video_id);
        summaries =
            delete_left (λ (s : Summary). belongs_to gone s.video_id) db.summaries
              (λ s. belongs s.video_id);
        others = refl;
      }
  where
    gone : List Video
    gone = select_all (is_video_of job_id tenant_id) db.videos

    belongs : (id : String) → (belongs_to gone id ≡ true) ↔ BelongsToJob job_id tenant_id db id
    belongs id = belongs_to_iff job_id tenant_id db id

    same :
        record db {
          videos = delete (is_video_of job_id tenant_id) db.videos;
          video_segments =
              delete (λ (l : SegmentLink). belongs_to gone l.owner_id) db.video_segments;
          transcripts = delete (λ (t : Transcript). belongs_to gone t.video_id) db.transcripts;
          chunks = delete (λ (c : Chunk). belongs_to gone c.video_id) db.chunks;
          summaries = delete (λ (s : Summary). belongs_to gone s.video_id) db.summaries;
        }
        ≡ db'
    same = ground arith

-- When DeleteByJobID succeeds, the videos left are those that were stored and are not the tenant's for the job; the links,
-- transcripts, chunks and summaries left are those that were stored and whose video was not one of the deleted; and every
-- other table is as it was.
pub delete_by_job_id-IsClean :
    (job_id tenant_id : String) (w : World) {u : Unit {0}} {w' : World}
    → delete_by_job_id job_id tenant_id w ≡ (ok u, w')
    → IsClean job_id tenant_id w.db w'.db
unfolding delete_by_job_id
delete_by_job_id-IsClean job_id tenant_id w {u} {w'} h =
    let all =
      with_tenant_tx-Outcome tenant_id (exec-Outcome (delete_video_by_job_id job_id tenant_id)) in
    let (begun, done, (_, here), (ran, _), (_, last)) = all.holds w u w' h in
    let clean =
      statement-IsClean job_id tenant_id (record begun { calls = suc begun.calls }) begun.db done.db
        u ran in
    subst (λ db. IsClean job_id tenant_id w.db db) (sym last)
      (subst (λ (b : Db). IsClean job_id tenant_id b done.db) here clean)
