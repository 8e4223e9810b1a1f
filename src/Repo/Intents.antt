-- ===== src/Repo/Intents.antt =====
-- internal/database/repo/upload_intents.go.
use learn_rag.Common.{String}
use learn_rag.Errors.{api, err_not_found}
use learn_rag.Model.{UploadIntent}
use learn_rag.Database.{M, ◌>>◌, return, map_err, exec, with_tenant_tx}
use learn_rag.Queries.Intents.{
  create_upload_intent, get_upload_intent_by_file_key_for_update, mark_upload_intent_consumed,
}
use learn_rag.Repo.{map_no_rows}

-- `Create`.
unfoldable pub create : UploadIntent → M (Unit {0})
unfolding with_tenant_tx exec create_upload_intent
create intent = with_tenant_tx intent.tenant_id (do exec (create_upload_intent intent); return tt)

-- `GetByFileKeyForUpdate`.
unfoldable pub get_by_file_key_for_update : String → String → M UploadIntent
unfolding with_tenant_tx exec get_upload_intent_by_file_key_for_update map_no_rows
get_by_file_key_for_update file_key tenant_id =
    map_err (map_no_rows (api err_not_found)) (
      with_tenant_tx tenant_id (exec (get_upload_intent_by_file_key_for_update file_key tenant_id)))

-- `Consume`.
unfoldable pub consume : String → String → M (Unit {0})
unfolding with_tenant_tx exec mark_upload_intent_consumed map_no_rows
consume file_key tenant_id = with_tenant_tx tenant_id (do
  map_err (map_no_rows (api err_not_found)) (exec (mark_upload_intent_consumed file_key tenant_id))
  return tt)
