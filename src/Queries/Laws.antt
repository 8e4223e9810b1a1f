-- ===== src/Queries/Laws.antt =====
-- What the statements return and leave, when they succeed.
use learn_rag.Common.{String, ◌≡◌, ◌&&◌, Option, none, some, List, [], ◌∷◌, ◌++◌, arith}
use learn_rag.Common.Text.{Text}
use learn_rag.Result.{ok}
use learn_rag.Model.{Job, UploadIntent, Segment, SegmentLink}
use learn_rag.Database.{Db, World}
use learn_rag.Database.Table.{select_one, update}
use learn_rag.Queries.{one}
use learn_rag.Queries.Jobs.{create_job}
use learn_rag.Queries.Intents.{
  get_upload_intent_by_file_key_for_update, mark_upload_intent_consumed, is_issued, is_intent,
  spent,
}
use learn_rag.Queries.Segments.{
  ensure_segment_by_name, list_segment_names_by_job_id, attach_job_segment, is_named,
}

-- The two tables that the segments' statements do not write.
abbrev pub Untouched : Db → Db → Type 0
Untouched before after = (after.jobs ≡ before.jobs) × (after.upload_intents ≡ before.upload_intents)

pub one_ok :
    {A : Type 0} (o : Option A) (db : Db) {a : A} {db' : Db}
    → one o db ≡ ok (a, db')
    → (o ≡ some a) × (db' ≡ db)
one_ok (some x) db h = (ground arith, ground arith)
one_ok none db h = cc

pub ensure_segment_by_name-Untouched :
    (s : Segment) (w : World) (db : Db) {seg : Segment} {db' : Db}
    → ensure_segment_by_name s w db ≡ ok (seg, db')
    → Untouched db db'
unfolding ensure_segment_by_name
ensure_segment_by_name-Untouched s w db {seg} {db'} h =
    let found =
      one_ok (select_one (is_named w s.tenant_id s.name) db.segments) db {a = seg} {db' = db'} in
    ground (arith, found)

pub attach_job_segment-Untouched :
    (l : SegmentLink) (w : World) (db : Db) {u : Unit {0}} {db' : Db}
    → attach_job_segment l w db ≡ ok (u, db')
    → Untouched db db'
unfolding attach_job_segment
attach_job_segment-Untouched l w db h = ground arith

pub create_job-ok :
    (j : Job) (w : World) (db : Db) {row : Job} {db' : Db}
    → create_job j w db ≡ ok (row, db')
    → (row ≡ j) × (db'.jobs ≡ db.jobs ++ row ∷ []) × (db'.upload_intents ≡ db.upload_intents)
unfolding create_job
create_job-ok j w db h = ground arith

pub list_names-ok :
    (id tenant_id : String) (w : World) (db : Db) {names : List Text} {db' : Db}
    → list_segment_names_by_job_id id tenant_id w db ≡ ok (names, db')
    → db' ≡ db
unfolding list_segment_names_by_job_id
list_names-ok id tenant_id w db h = ground arith

pub get_intent-ok :
    (key tenant_id : String) (w : World) (db : Db) {i : UploadIntent} {db' : Db}
    → get_upload_intent_by_file_key_for_update key tenant_id w db ≡ ok (i, db')
    → (select_one (is_intent key tenant_id) db.upload_intents ≡ some i) × (db' ≡ db)
unfolding get_upload_intent_by_file_key_for_update
get_intent-ok key tenant_id w db h = one_ok _ db h

pub mark_intent-ok :
    (key tenant_id : String) (w : World) (db : Db) {i : UploadIntent} {db' : Db}
    → mark_upload_intent_consumed key tenant_id w db ≡ ok (i, db')
    → (db'.jobs ≡ db.jobs)
      × (db'.upload_intents
          ≡ update
              (λ i. is_intent key tenant_id i && is_issued i.status)
              (spent (w.env.clock w.reads))
              db.upload_intents)
unfolding mark_upload_intent_consumed
mark_intent-ok key tenant_id w db h = ground arith
