-- ===== src/Repo/Keys.antt =====
-- internal/database/repo/api_keys.go.
use learn_rag.Common.{String}
use learn_rag.Errors.{api, err_not_found}
use learn_rag.Model.{ApiKey}
use learn_rag.Database.{M, map_err, exec}
use learn_rag.Queries.Keys.{get_api_key_by_hash, touch_api_key_last_used}
use learn_rag.Repo.{map_no_rows}

-- `GetByHash`.
unfoldable pub get_by_hash : String → M ApiKey
unfolding exec get_api_key_by_hash map_no_rows
get_by_hash hash = map_err (map_no_rows (api err_not_found)) (exec (get_api_key_by_hash hash))

-- `TouchLastUsed`.
unfoldable pub touch_last_used : String → M (Unit {0})
unfolding exec touch_api_key_last_used
touch_last_used id = exec (touch_api_key_last_used id)
