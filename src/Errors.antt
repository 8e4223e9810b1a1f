-- ===== src/Errors.antt =====
-- internal/core/errors/errors.go: the API errors, and what a client is shown of any error.
-- A Go error is a value of `Err`: an `*APIError`, a plain error with a text, `pgx.ErrNoRows`, or an
-- error that wraps another by `fmt.Errorf("...: %w", err)`.
use learn_rag.Common.{ℕ, String, Bool, true, false, Option, none, some}
use Prim.Native.String

pub record ApiError : Type 0 where
  pub code : String
  pub http_status : ℕ
  pub message : String

pub data Err : Type 0 where
  api : ApiError → Err
  plain : String → Err
  no_rows : Err
  wrap : String → Err → Err

abbrev new_api_error : String → ℕ → String → ApiError
new_api_error code status msg = record { code = code; http_status = status; message = msg }

abbrev pub err_invalid_request : ApiError
err_invalid_request = new_api_error "invalid_request" 400 "Request tidak valid."

abbrev pub err_unsupported_content_type : ApiError
err_unsupported_content_type =
    new_api_error "unsupported_content_type" 400 "Tipe konten tidak diizinkan."

abbrev pub err_invalid_file_key : ApiError
err_invalid_file_key = new_api_error "invalid_file_key" 400 "File key tidak sesuai."

abbrev pub err_expired_upload_intent : ApiError
err_expired_upload_intent =
    new_api_error "expired_upload_intent" 400 "Upload intent sudah kedaluwarsa."

abbrev pub err_upload_intent_consumed : ApiError
err_upload_intent_consumed =
    new_api_error "upload_intent_consumed" 400 "Upload intent sudah dipakai."

abbrev pub err_job_not_failed : ApiError
err_job_not_failed =
    new_api_error "job_not_failed" 400 "Retry hanya bisa dilakukan untuk job yang gagal."

abbrev pub err_question_required : ApiError
err_question_required = new_api_error "question_required" 400 "Field question wajib diisi."

abbrev pub err_not_found : ApiError
err_not_found = new_api_error "not_found" 404 "Resource tidak ditemukan."

abbrev pub err_unauthorized : ApiError
err_unauthorized = new_api_error "unauthorized" 401 "API key tidak valid."

abbrev pub err_forbidden : ApiError
err_forbidden = new_api_error "forbidden" 403 "API key tidak memiliki akses ke resource ini."

abbrev pub err_rate_limited : ApiError
err_rate_limited = new_api_error "rate_limited" 429 "Terlalu banyak permintaan. Coba lagi nanti."

abbrev pub err_internal : ApiError
err_internal = new_api_error "internal_error" 500 "Terjadi kesalahan internal."

-- `errors.As(err, &target)` for an `*APIError`: the first one on the chain of wrapped errors.
unfoldable pub as_api : Err → Option ApiError
as_api (api e) = some e
as_api (plain s) = none
as_api no_rows = none
as_api (wrap s e) = as_api e

-- `errors.Is(err, pgx.ErrNoRows)`.
unfoldable pub is_no_rows : Err → Bool
is_no_rows (api e) = false
is_no_rows (plain s) = false
is_no_rows no_rows = true
is_no_rows (wrap s e) = is_no_rows e

-- `Code`, `HTTPStatus` and `Message`.
unfoldable pub code : Err → String
code err = elim (as_api err) [ some target ↦ target.code | none ↦ err_internal.code ]

unfoldable pub http_status : Err → ℕ
http_status err = elim (as_api err) [
  | some target ↦ target.http_status
  | none ↦ err_internal.http_status
]

unfoldable pub message : Err → String
message err = elim (as_api err) [ some target ↦ target.message | none ↦ err_internal.message ]

-- `err.Error()`.
unfoldable pub error_text : Err → String
error_text (api e) = e.message
error_text (plain s) = s
error_text no_rows = "no rows in result set"
error_text (wrap s e) = String.◌++◌ s (String.◌++◌ ": " (error_text e))
