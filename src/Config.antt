-- ===== src/Config.antt =====
-- internal/config/config.go: `Load`, as a function of the environment. `log.Fatalf` is an error.
pub mod Valid
mod Examples
use Prim.Native.String
use learn_rag.Common.{
  ℕ, ◌+◌, ◌-◌, ◌*◌, ◌%◌, ◌^◌, String, Bool, if◌then◌else◌, ltb, ◌<◌, Option, none, some, [],
}
use learn_rag.Common.Int.{ℤ, pos, negsuc, sub_ℕ, leb_ℤ, ◌<ℤ◌}
use learn_rag.Common.Text.{Text, codes, is_empty}
use learn_rag.Errors.{Err, plain}
use learn_rag.Result.{Result, ok, err, ◌>>=◌}
use learn_rag.Handlers.Pages.{atoi}

-- `os.Getenv`.
abbrev pub Environment : Type 0
Environment = String → Text

pub record Config : Type 0 where
  pub database_url : Text
  pub server_port : Text
  pub worker_concurrency : ℤ
  pub r2_account_id : Text
  pub r2_access_key_id : Text
  pub r2_secret_access_key : Text
  pub r2_bucket : Text
  pub r2_public_endpoint : Text
  pub groq_api_key : Text
  pub llama_parse_api_key : Text
  pub cloudflare_account_id : Text
  pub cloudflare_api_token : Text
  pub deep_seek_api_key : Text
  pub upload_url_ttl_minutes : ℤ
  pub max_upload_bytes : ℤ
  pub embedding_batch_size : ℤ
  pub summary_max_tokens : ℤ
  pub query_result_k : ℤ
  pub cb_max_failures : ℤ
  pub cb_timeout : ℤ

abbrev fatal : String → Err
fatal what = plain (String.◌++◌ "config: " what)

-- `required`.
abbrev pub required : Environment → String → Result Text
required env key =
    if is_empty (env key)
    then err (fatal (String.◌++◌ "required environment variable is not set: " key))
    else ok (env key)

-- `getenv`.
abbrev pub getenv : Environment → String → Text → Text
getenv env key default = if is_empty (env key) then default else env key

abbrev pub integer : String → Option ℤ → Result ℤ
integer key none = err (fatal (String.◌++◌ key " must be an integer"))
integer key (some n) = ok n

-- `getenvInt` and `getenvInt64`, which read the same texts on 64 bits.
abbrev pub getenv_int : Environment → String → ℤ → Result ℤ
getenv_int env key default = if is_empty (env key) then ok default else integer key (atoi (env key))

-- The low 64 bits of a number, read with a sign.
abbrev pub signed : ℕ → ℤ
signed n = let low = n % 2 ^ 64 in if ltb low (2 ^ 63) then pos low else sub_ℕ low (2 ^ 64)

-- `time.Duration(n) * time.Second` in 64-bit arithmetic.
abbrev pub seconds : ℤ → ℤ
seconds (pos n) = signed (n * 1000000000)
seconds (negsuc n) = signed (2 ^ 64 - (n + 1) * 1000000000 % 2 ^ 64)

-- `getenvDuration`.
abbrev pub getenv_duration : Environment → String → ℤ → Result ℤ
getenv_duration env key default =
    if is_empty (env key)
    then ok default
    else (integer key (atoi (env key)) >>= λ n. ok (seconds n))

abbrev must_be_positive : String → ℤ → Result (Unit {0})
must_be_positive key n =
    if leb_ℤ n (pos 0) then err (fatal (String.◌++◌ key " must be > 0")) else ok tt

-- `validate`.
unfoldable pub validate : Config → Result (Unit {0})
validate c = do
  _ ← must_be_positive "WORKER_CONCURRENCY" c.worker_concurrency
  _ ← must_be_positive "EMBEDDING_BATCH_SIZE" c.embedding_batch_size
  _ ← must_be_positive "UPLOAD_URL_TTL_MINUTES" c.upload_url_ttl_minutes
  _ ← must_be_positive "MAX_UPLOAD_BYTES" c.max_upload_bytes
  _ ← must_be_positive "CB_MAX_FAILURES" c.cb_max_failures
  must_be_positive "CB_TIMEOUT" c.cb_timeout

-- The fields of `Load`.
unfoldable pub read_env : Environment → Result Config
unfolding atoi
read_env env = do
  database_url ← required env "DATABASE_URL"
  worker_concurrency ← getenv_int env "WORKER_CONCURRENCY" (pos 3)
  upload_url_ttl_minutes ← getenv_int env "UPLOAD_URL_TTL_MINUTES" (pos 10)
  max_upload_bytes ← getenv_int env "MAX_UPLOAD_BYTES" (pos 2147483648)
  embedding_batch_size ← getenv_int env "EMBEDDING_BATCH_SIZE" (pos 16)
  summary_max_tokens ← getenv_int env "SUMMARY_MAX_TOKENS" (pos 12000)
  query_result_k ← getenv_int env "QUERY_RESULT_K" (pos 5)
  cb_max_failures ← getenv_int env "CB_MAX_FAILURES" (pos 3)
  cb_timeout ← getenv_duration env "CB_TIMEOUT" (pos 30000000000)
  ok (record {
    database_url = database_url;
    server_port = getenv env "SERVER_PORT" (codes "8080");
    worker_concurrency = worker_concurrency;
    r2_account_id = env "R2_ACCOUNT_ID";
    r2_access_key_id = env "R2_ACCESS_KEY_ID";
    r2_secret_access_key = env "R2_SECRET_ACCESS_KEY";
    r2_bucket = env "R2_BUCKET";
    r2_public_endpoint = env "R2_PUBLIC_ENDPOINT";
    groq_api_key = env "GROQ_API_KEY";
    llama_parse_api_key = env "LLAMAPARSE_API_KEY";
    cloudflare_account_id = env "CLOUDFLARE_ACCOUNT_ID";
    cloudflare_api_token = env "CLOUDFLARE_API_TOKEN";
    deep_seek_api_key = env "DEEPSEEK_API_KEY";
    upload_url_ttl_minutes = upload_url_ttl_minutes;
    max_upload_bytes = max_upload_bytes;
    embedding_batch_size = embedding_batch_size;
    summary_max_tokens = summary_max_tokens;
    query_result_k = query_result_k;
    cb_max_failures = cb_max_failures;
    cb_timeout = cb_timeout;
  })

-- `Load`.
unfoldable pub load : Environment → Result Config
unfolding validate read_env
load env = do cfg ← read_env env; _ ← validate cfg; ok cfg
