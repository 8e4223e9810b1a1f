-- ===== src/Handlers/Uploads.antt =====
-- internal/httpapi/handlers/upload_intent.go. The signing of URLs by the storage is a parameter.
use Prim.Native.String
use learn_rag.Common.{ℕ, ◌+◌, ◌*◌, String, none, some, if◌then◌else◌, ltb, ◌==◌, length, ◌||◌}
use learn_rag.Common.Assoc.{lookup}
use learn_rag.Common.Text.{codes}
use learn_rag.Errors.{api, err_invalid_request, err_unsupported_content_type}
use learn_rag.Result.{Result, ok, err}
use learn_rag.Model.{UploadIntent, issued}
use learn_rag.Database.{Service, call, M, ◌>>=◌, ◌>>◌, return, new_uuid, time_now}
use learn_rag.Repo.Intents.{create}
use learn_rag.Handlers.{
  Identity, Handler, write_error, respond, insert_audit, audited, ContentTypeConfig,
  allowed_content_types,
}

abbrev pub max_content_type_length : ℕ
max_content_type_length = 128

-- `CreateUploadIntentResponse`, whose status is "issued".
pub record CreateUploadIntentResponse : Type 0 where
  pub intent : UploadIntent
  pub presigned_url : String

-- The intent for an allowed content type; the lifetime is in minutes, a time in nanoseconds.
abbrev pub new_intent : String → String → String → String → ContentTypeConfig → ℕ → ℕ → UploadIntent
new_intent tenant_id intent_id file_id content_type config ttl_minutes now = record {
  id = intent_id;
  tenant_id = tenant_id;
  file_key =
      String.◌++◌ tenant_id (
        String.◌++◌ "/" (String.◌++◌ intent_id (String.◌++◌ "/" (String.◌++◌ file_id config.ext))));
  content_type = content_type;
  status = issued;
  expires_at = now + ttl_minutes * 60000000000;
  consumed_at = none;
  created_at = now;
}

-- The work after the validation.
unfoldable pub upload_body :
    Service (String × String × ℕ) String
    → ℕ
    → String
    → String
    → ContentTypeConfig
    → M CreateUploadIntentResponse
unfolding create new_uuid time_now
upload_body generate_upload_url ttl_minutes tenant_id content_type config = do
  intent_id ← new_uuid
  file_id ← new_uuid
  now ← time_now
  let intent : UploadIntent =
      new_intent tenant_id intent_id file_id content_type config ttl_minutes now
  create intent
  url ← call generate_upload_url (intent.file_key, content_type, intent.expires_at)
  return (record { intent = intent; presigned_url = url })

-- The configuration of the content type, if it is allowed.
unfoldable pub check_content_type : String → Result ContentTypeConfig
unfolding lookup
check_content_type content_type =
    let size = length (codes content_type) in
    let found = lookup content_type allowed_content_types in
    if size == 0 || ltb max_content_type_length size
    then err (api err_invalid_request)
    else elim found [ none ↦ err (api err_unsupported_content_type) | some config ↦ ok config ]

abbrev pub with_config :
    Result ContentTypeConfig
    → (ContentTypeConfig → Handler CreateUploadIntentResponse)
    → Handler CreateUploadIntentResponse
with_config (ok config) k w = k config w
with_config (err e) k w = (write_error e, w)

-- `CreateUploadIntent`.
unfoldable pub create_upload_intent_handler :
    Service (String × String × ℕ) String
    → ℕ
    → Identity
    → String
    → Handler CreateUploadIntentResponse
unfolding check_content_type upload_body insert_audit write_error
create_upload_intent_handler generate_upload_url ttl_minutes identity content_type =
    with_config (check_content_type content_type) λ config w.
      respond
        (λ body w.
          audited 201 body (insert_audit identity "upload_intent.create" (some body.intent.id) w))
        (upload_body generate_upload_url ttl_minutes identity.tenant_id content_type config w)
