-- ===== src/Queries/Keys.antt =====
-- internal/database/queries/api_keys.sql.go.
use text.Mathlib.Text.{◌==◌ as str_eq}
use learn_rag.Common.{String, Bool, not, ◌&&◌, some, is_some}
use learn_rag.Result.{ok}
use learn_rag.Model.{ApiKey}
use learn_rag.Database.{Statement}
use learn_rag.Database.Table.{select_one, update}
use learn_rag.Queries.{one}
use learn_rag.Queries.Jobs.{now_of}

-- `WHERE key_hash = $1 AND revoked_at IS NULL`.
abbrev pub is_active_key : String → ApiKey → Bool
is_active_key hash k = str_eq k.key_hash hash && not (is_some k.revoked_at)

-- `GetAPIKeyByHash`.
unfoldable pub get_api_key_by_hash : String → Statement ApiKey
get_api_key_by_hash hash w db = one (select_one (is_active_key hash) db.api_keys) db

-- `TouchAPIKeyLastUsed`; `updated_at` is set by a trigger.
unfoldable pub touch_api_key_last_used : String → Statement (Unit {0})
touch_api_key_last_used id w db =
    let touched =
      λ (k : ApiKey). record k { last_used_at = some (now_of w); updated_at = now_of w } in
    ok (tt, record db { api_keys = update (λ (k : ApiKey). str_eq k.id id) touched db.api_keys })
