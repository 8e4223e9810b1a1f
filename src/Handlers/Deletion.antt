-- ===== src/Handlers/Deletion.antt =====
-- A deleted video is gone for the API (`DeleteVideo` and `GetVideo` of
-- internal/httpapi/handlers/video.go).
use mathlib.Core.Path.{subst}
use learn_rag.Common.{
  ℕ, suc, ◌≡◌, refl, sym, ap, ◌∙◌, arith, String, Bool, Option, none, some, List,
}
use learn_rag.Common.Text.{Text}
use learn_rag.Errors.{Err, api, err_not_found, no_rows, is_no_rows}
use learn_rag.Result.{Result, ok, err}
use learn_rag.Model.{Video}
use learn_rag.Database.{Db, World, M, ◌>>=◌, return, and_then, exec, with_err}
use learn_rag.Database.Keeps.{
  Keeps, bind-Keeps, exec-Keeps, with_tenant_tx-Keeps, new_uuid-Keeps, time_now-Keeps,
}
use learn_rag.Database.Outcome.{
  Outcome, weaken, bind-Outcome, map_err-Outcome, return-Outcome, exec-Outcome,
  with_tenant_tx-Outcome,
}
use learn_rag.Database.Rows.{select_one-update_gone}
use learn_rag.Database.Success.{Answers, exec_refused, with_tenant_tx_refused}
use learn_rag.Database.Table.{select_one, update}
use learn_rag.Queries.{one}
use learn_rag.Queries.Jobs.{now_of}
use learn_rag.Queries.Videos.{is_live_video, deleted, soft_delete_video, get_video_by_id, updated}
use learn_rag.Repo.{map_no_rows}
use learn_rag.Repo.Videos
use learn_rag.Repo.Contents.{get_summary}
use learn_rag.Handlers.{
  Identity, Response, json, write_error, respond, insert_audit, audit_row, insert_audit_log,
}
use learn_rag.Handlers.Jobs.Endpoint.{respond_json, audited-json}
use learn_rag.Handlers.Videos.{
  DeleteVideoResponse, delete_video_handler, get_video_handler, get_video_body, optional_summary,
  VideoDetailResponse, to_video_response,
}

updated_ok :
    (o : Option Video) (change : Video → Video) (test : Video → Bool) (db : Db) (a : Video)
    (db' : Db)
    → updated o change test db ≡ ok (a, db')
    → db'.videos ≡ update test change db.videos
updated_ok (some v) change test db a db' h = ground arith
updated_ok none change test db a db' h = cc

soft_delete-Outcome :
    (id tenant_id : String)
    → Outcome (Videos.soft_delete id tenant_id) (λ w a w'.
      (now : ℕ) × (w'.db.videos ≡ update (is_live_video id tenant_id) (deleted now) w.db.videos))
unfolding Videos.soft_delete soft_delete_video
soft_delete-Outcome id tenant_id =
    weaken
      (with_tenant_tx-Outcome tenant_id (
        bind-Outcome
          (map_err-Outcome (map_no_rows (api err_not_found))
            (exec-Outcome (soft_delete_video id tenant_id)))
          λ row. return-Outcome {x = Videos.time_of row.deleted_at}))
      (λ w a w' (begun, done, (_, here), (row, between, (ran, _), (_, (_, later))), (_, last)).
        let videos = λ (db : Db). db.videos in
        (
          now_of begun,
          ap videos last
              ∙ ap videos later
              ∙ updated_ok _ _ _ begun.db row between.db ran
              ∙ ap (λ db. update (is_live_video id tenant_id) (deleted (now_of begun)) (videos db))
                  here,
        ))

insert_audit-videos :
    (videos : List Video) (identity : Identity) (action : String) (object_id : Option String)
    → Keeps (λ db. db.videos ≡ videos) (insert_audit identity action object_id)
unfolding insert_audit insert_audit_log
insert_audit-videos videos identity action object_id = bind-Keeps new_uuid-Keeps λ id.
    bind-Keeps time_now-Keeps λ created_at. with_tenant_tx-Keeps identity.tenant_id (
      exec-Keeps (insert_audit_log (audit_row identity action object_id id created_at))
        (λ w db a db' h p. ground arith))

get_by_id-missing :
    (id tenant_id : String) (w : World)
    → Answers w.env
    → select_one (is_live_video id tenant_id) w.db.videos ≡ none
    → (Videos.get_by_id id tenant_id w).0 ≡ err (api err_not_found)
unfolding Videos.get_by_id get_video_by_id map_no_rows is_no_rows
get_by_id-missing id tenant_id w answers missing =
    let begun : World = record w { calls = suc (suc w.calls) } in
    let asked =
      exec_refused (get_video_by_id id tenant_id) begun {e = no_rows} answers
        (ap (λ o. one o w.db) missing) in
    let whole =
      with_tenant_tx_refused tenant_id
        (exec (get_video_by_id id tenant_id) >>= λ row. Videos.with_segments row) w answers
        (ap (and_then (λ row. Videos.with_segments row)) asked) in
    ap
      (λ (r : Result (Video × List Text) × World). (with_err (map_no_rows (api err_not_found)) r).0)
      whole

respond_missing :
    {A B C : Type 0} (f : B → World → Response C × World) (g : A → M B) (r : Result A × World)
    (e : Err)
    → r.0 ≡ err e
    → (respond f (and_then g r)).0 ≡ write_error e
respond_missing f g (ok a, w) e h = cc
respond_missing f g (err e', w) e h = cc

get_video-missing :
    (identity : Identity) (id : String) (w : World)
    → (Videos.get_by_id id identity.tenant_id w).0 ≡ err (api err_not_found)
    → (get_video_handler identity id w).0 ≡ write_error (api err_not_found)
unfolding get_video_handler get_video_body
get_video-missing identity id w h =
    respond_missing (λ (body : VideoDetailResponse) w. (json 200 body, w))
      (λ video. (λ w. optional_summary (get_summary id identity.tenant_id w)) >>= λ summary.
        return (record { video = to_video_response video; summary = summary }))
      (Videos.get_by_id id identity.tenant_id w) (api err_not_found) h

-- Once DeleteVideo has answered with success, GetVideo answers "not found" for that video and tenant, whatever else has happened,
-- as long as the table of videos stays and the database answers.
pub delete_video-gone :
    (identity : Identity) (video_id : String) (w : World) {status : ℕ} {body : DeleteVideoResponse}
    {w' : World}
    → delete_video_handler identity video_id w ≡ (json status body, w')
    → (later : Identity) (v : World) → later.tenant_id ≡ identity.tenant_id
    → v.db.videos ≡ w'.db.videos
    → Answers v.env
    → (get_video_handler later video_id v).0 ≡ write_error (api err_not_found)
unfolding delete_video_handler
delete_video-gone identity video_id w {body} {w'} h later v tenant same answers =
    let (at, u, ran, last) = respond_json _ (Videos.soft_delete video_id identity.tenant_id w) h in
    let (now, videos) = (soft_delete-Outcome video_id identity.tenant_id).holds w at u ran in
    let (_, _, after) =
      audited-json 200 (record { id = video_id; deleted_at = at })
        (insert_audit identity "video.delete" (some video_id) u) last in
    let kept =
      (insert_audit-videos u.db.videos identity "video.delete" (some video_id)).keeps u refl in
    let table : v.db.videos ≡ u.db.videos = same ∙ ap (λ (x : World). x.db.videos) after ∙ kept in
    let test = is_live_video video_id identity.tenant_id in
    let gone : select_one test v.db.videos ≡ none =
      ap (λ videos. select_one test videos) (table ∙ videos)
      ∙ select_one-update_gone test (deleted now) w.db.videos (λ r. ground arith) in
    get_video-missing later video_id v (
      get_by_id-missing video_id later.tenant_id v answers
        (subst (λ t. select_one (is_live_video video_id t) v.db.videos ≡ none) (sym tenant) gone))
