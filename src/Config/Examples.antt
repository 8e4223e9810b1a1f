-- ===== src/Config/Examples.antt =====
-- An environment with the required variable only, and the bounds of the worker.
use text.Mathlib.Text.{◌==◌ as str_eq}
use learn_rag.Common.{◌≡◌, refl, if◌then◌else◌, []}
use learn_rag.Common.Int.{pos, negsuc}
use learn_rag.Common.Text.{codes}
use learn_rag.Result.{ok}
use learn_rag.Config.{Environment, Config, load}
use learn_rag.Config.Valid.{IsValid, load-IsValid}
use learn_rag.Worker.Retention.{retention_interval}

abbrev environment : Environment
environment key = if str_eq key "DATABASE_URL" then codes "db" else []

abbrev defaults : Config
defaults = record {
  database_url = codes "db";
  server_port = codes "8080";
  worker_concurrency = pos 3;
  r2_account_id = [];
  r2_access_key_id = [];
  r2_secret_access_key = [];
  r2_bucket = [];
  r2_public_endpoint = [];
  groq_api_key = [];
  llama_parse_api_key = [];
  cloudflare_account_id = [];
  cloudflare_api_token = [];
  deep_seek_api_key = [];
  upload_url_ttl_minutes = pos 10;
  max_upload_bytes = pos 2147483648;
  embedding_batch_size = pos 16;
  summary_max_tokens = pos 12000;
  query_result_k = pos 5;
  cb_max_failures = pos 3;
  cb_timeout = pos 30000000000;
}

defaults-load : load environment ≡ ok defaults
unfolding load
defaults-load = refl

load-IsValid_example : IsValid defaults
load-IsValid_example = load-IsValid environment defaults defaults-load

-- An interval of 9223372037 seconds does not fit into 64 bits of nanoseconds.
long_interval : retention_interval (codes "9223372037") ≡ negsuc 9223372036709551615
unfolding retention_interval
long_interval = refl
