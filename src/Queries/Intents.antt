-- ===== src/Queries/Intents.antt =====
-- internal/database/queries/upload_intents.sql.go.
use text.Mathlib.Text.{◌==◌ as str_eq}
use learn_rag.Common.{
  ℕ, String, Bool, true, false, ◌&&◌, ◌||◌, none, some, [], ◌∷◌, ◌++◌, if◌then◌else◌,
}
use learn_rag.Errors.{no_rows}
use learn_rag.Result.{ok, err}
use learn_rag.Model.{UploadIntent, IntentStatus, issued, consumed}
use learn_rag.Database.{Statement}
use learn_rag.Database.Table.{select_one, update, exists}
use learn_rag.Queries.{one, unique_violation}

abbrev pub is_issued : IntentStatus → Bool
is_issued issued = true
is_issued consumed = false

-- `WHERE file_key = $1 AND tenant_id = $2`.
abbrev pub is_intent : String → String → UploadIntent → Bool
is_intent file_key tenant_id i = str_eq i.file_key file_key && str_eq i.tenant_id tenant_id

-- `CreateUploadIntent`: the primary key and file_key are unique.
unfoldable pub create_upload_intent : UploadIntent → Statement UploadIntent
create_upload_intent i w db =
    if exists (λ old. str_eq old.id i.id || str_eq old.file_key i.file_key) db.upload_intents
    then err unique_violation
    else ok (i, record db { upload_intents = db.upload_intents ++ i ∷ [] })

-- `GetUploadIntentByFileKeyForUpdate`.
unfoldable pub get_upload_intent_by_file_key_for_update : String → String → Statement UploadIntent
get_upload_intent_by_file_key_for_update file_key tenant_id w db =
    one (select_one (is_intent file_key tenant_id) db.upload_intents) db

abbrev pub spent : ℕ → UploadIntent → UploadIntent
spent now i = record i { status = consumed; consumed_at = some now }

-- `MarkUploadIntentConsumed`.
unfoldable pub mark_upload_intent_consumed : String → String → Statement UploadIntent
mark_upload_intent_consumed file_key tenant_id w db =
    let test = λ (i : UploadIntent). is_intent file_key tenant_id i && is_issued i.status in
    let now = w.env.clock w.reads in
    elim (select_one test db.upload_intents) [
      | none ↦ err no_rows
      | some i ↦
          ok (spent now i, record db { upload_intents = update test (spent now) db.upload_intents })
    ]
