-- ===== src/Handlers.antt =====
-- internal/httpapi/handlers and internal/httpapi/dto: what the endpoints share. The identity that
-- the middleware stores on the request is an argument; JSON binding and writing are not modelled: a
-- handler is given the bound request and returns the status with the body as a value.
pub mod Jobs
pub mod Pages
pub mod Videos
pub mod Uploads
pub mod Query
pub mod Deletion
mod Examples
pub mod Access
pub mod Admission
use text.Mathlib.Text.{◌==◌ as str_eq}
use learn_rag.Common.{ℕ, String, if◌then◌else◌, Option, none, some, List, [], ◌∷◌, ◌++◌}
use learn_rag.Common.Assoc.{lookup}
use learn_rag.Errors.{Err, code, http_status, message}
use learn_rag.Result.{Result, ok, err}
use learn_rag.Model.{Kind, AuditLog}
use learn_rag.Database.{
  Db, World, M, Statement, ◌>>=◌, and_then, exec, with_tenant_tx, new_uuid, time_now,
}
use learn_rag.Queries.{unique_violation}

-- What the middleware stores on the request.
pub record Identity : Type 0 where
  pub tenant_id : String
  pub api_key_id : String

-- A response: a body with its status, or the error body.
pub data Response (A : Type 0) : Type 0 where
  json : ℕ → A → Response A
  error_json : ℕ → String → String → Response A

-- A handler.
abbrev pub Handler : Type 0 → Type 0
Handler A = World → Response A × World

-- `writeError`.
unfoldable pub write_error : {A : Type 0} → Err → Response A
unfolding http_status code message
write_error e = error_json (http_status e) (code e) (message e)

-- The end of a handler whose work is a fallible call, `if err != nil { writeError(c, err); return }`.
abbrev pub respond : {A B : Type 0} → (A → Handler B) → Result A × World → Response B × World
respond f (ok a, w) = f a w
respond f (err e, w) = (write_error e, w)

-- `InsertAuditLog`.
unfoldable pub insert_audit_log : AuditLog → Statement AuditLog
insert_audit_log row w db = ok (row, record db { audit_logs = db.audit_logs ++ row ∷ [] })

-- A validation, whose error is answered at once.
abbrev pub validated : {A : Type 0} → Option Err → Handler A → Handler A
validated (some e) k w = (write_error e, w)
validated none k w = k w

-- The record that `insertAudit` makes.
abbrev pub audit_row : Identity → String → Option String → String → ℕ → AuditLog
audit_row identity action object_id id created_at = record {
  id = id;
  tenant_id = identity.tenant_id;
  actor_key_id = if str_eq identity.api_key_id "" then none else some identity.api_key_id;
  action = action;
  object_id = object_id;
  created_at = created_at;
}

-- `insertAudit`; the metadata is left out.
unfoldable pub insert_audit : Identity → String → Option String → M AuditLog
unfolding with_tenant_tx exec insert_audit_log new_uuid time_now
insert_audit identity action object_id = do
  id ← new_uuid
  created_at ← time_now
  with_tenant_tx identity.tenant_id
      (exec (insert_audit_log (audit_row identity action object_id id created_at)))

-- The end of a handler that has written an audit record, or failed to, which is ignored.
abbrev pub audited : {A : Type 0} → ℕ → A → Result AuditLog × World → Response A × World
audited status body (_, w) = (json status body, w)

-- `ContentTypeConfig`.
pub record ContentTypeConfig : Type 0 where
  pub ext : String
  pub kind : Kind

-- `AllowedContentTypes`.
abbrev pub allowed_content_types : List (String × ContentTypeConfig)
allowed_content_types =
    ("video/mp4", record { ext = ".mp4"; kind = Kind.video })
    ∷ ("video/quicktime", record { ext = ".mov"; kind = Kind.video })
    ∷ ("audio/mpeg", record { ext = ".mp3"; kind = Kind.audio })
    ∷ ("audio/wav", record { ext = ".wav"; kind = Kind.audio })
    ∷ ("application/pdf", record { ext = ".pdf"; kind = Kind.pdf })
    ∷ []
