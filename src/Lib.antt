-- ===== src/Lib.antt =====
-- A model of learn-rag (github.com/pratamaWahyuadi/learn-rag), a RAG backend for course material in
-- Go: an HTTP API and a background worker around Postgres, object storage and external AI
-- providers. A client asks for an upload intent, uploads a file to the object storage and posts a
-- job for it; the worker claims the oldest pending job, turns the file into text, chunks,
-- embeddings and a summary, and the client lists, retries and queries. The API answers with errors
-- of one shape, limits the rate of requests per key, and guards each provider by a circuit breaker.
--
-- Common holds the names shared by all files: Boolean tests, lists measured by native numbers,
-- signed integers, byte texts and association lists. Errors and Result are
-- internal/core/errors/errors.go and a Go result with an error; an error is a value that may wrap
-- another.
--
-- Breaker is internal/circuitbreaker/breaker.go: Breaker is the struct under its mutex, execute is
-- Execute, record_result is record, allow_acquire is allowAcquire. Time is a number of nanoseconds,
-- given to each call; MaxFailures and HalfOpenMaxCalls are signed. Concurrent use is any sequence
-- of the calls that take the mutex.
--
-- Bucket is internal/ratelimit/token_bucket.go: TokenBucket and its map of buckets,
-- new_token_bucket, refill_bucket, allow and reset. The tokens, which are float64 in the code, are
-- exact fractions here.
--
-- Chunker is internal/core/chunker/chunker.go: chunk is Chunk, split_sentences is splitSentences,
-- over bytes. Summarizer is internal/core/summarizer/summarizer.go: summarize is Summarize,
-- split_sections is splitSections, cut_at_sentence_boundary is cutAtSentenceBoundary; the language
-- model is a parameter. Their loops recur on fuel: the number of sentences, or of bytes left, which
-- each round makes smaller.
--
-- Model has the records of internal/core/model/models.go. Database has the tables, the calls of the
-- server that may fail, and WithTenantTx of internal/database/tx.go as with_tenant_tx; the clock,
-- the ids that are made, the failures, the locks of other sessions and lower() are fields of Env,
-- so that a theorem holds for all of them. Database/Outcome and Database/Keeps are two logics for
-- such code: what a success means, and what every outcome keeps. Queries has the SQL statements of
-- internal/database/queries, one function for each, as functions on the tables; Repo has the
-- repositories of internal/database/repo. Repo/JobsKept, Repo/Moves and Repo/Loading say what the
-- repositories' calls do to the table of jobs. Row level security is not modelled; the statements
-- that the API runs for a tenant have tenant conditions of their own, and the worker's claim and
-- load of a job, the sweep of old jobs and the look-up of a key have none. Ids are compared as
-- texts, so they are taken to be canonical uuids, where Postgres refuses a malformed one with an
-- error. A commit that fails is a rollback: a lost acknowledgement of one that was applied is not
-- modelled. The trigger that sets updated_at is part of the statements.
--
-- Handlers is internal/httpapi/handlers: create_job_handler is CreateJob, get_job is GetJob,
-- list_jobs_handler is ListJobs, retry_job_handler is RetryJob (Handlers/Jobs), pagination is in
-- Handlers/Pages, the endpoints of videos, upload intents and questions in Handlers/Videos,
-- Handlers/Uploads and Handlers/Query. A handler takes the identity that the middleware found and
-- the bound request, and returns the response as a value. Handlers/Access is
-- internal/httpapi/middleware: serve puts the authentication, the scope and the rate limit before a
-- handler. Handlers/Jobs/History puts the endpoints and the worker's writes together: a history of
-- the table of jobs is any sequence of such calls.
--
-- Worker is internal/worker: the pipeline of processor.go is Worker/Pipeline (process_job is
-- ProcessJob, run is run, and so on), with the check of files in Worker/Media and embedSections in
-- Worker itself; Worker/Queue has the draining of the queue by workerLoop, which recurs on fuel,
-- and Worker/Retention the sweep of old files. A provider, the storage or the file system is a
-- function of the number of calls so far, so that it may answer differently each time; the stage of
-- the job in the worker's hands is a field of World. embedSections recurs on fuel, the number of
-- sections.
--
-- Rager is internal/core/rager/rager.go: answer is Answer. HttpClient is
-- internal/providers/httpclient/client.go: do_with_retry is doWithRetry, do_with_retry_reader is
-- doWithRetryReader, do_json is DoJSON; the loop they share recurs on fuel, one round more than the
-- retries, and HttpClient/Retries shows that this is enough. Config is internal/config/config.go:
-- load is Load. Providers is internal/providers above it: CloudflareAi (embed_batch is EmbedBatch,
-- embed_one is embedOne), LlamaParse (parse is Parse, wait_until_done is waitUntilDone), Groq
-- (transcribe is Transcribe) and DeepSeek (chat_completion is chatCompletion); each call goes
-- through execute of Breaker. The loop of EmbedBatch recurs on the number of texts, and
-- Providers/CloudflareAi/Batches shows that this is enough; waitUntilDone recurs on the polls that
-- are left.
--
-- Not modelled: the goroutines of the worker with their channels and tickers, CORS, logging and
-- recovery, JSON, process start and the object storage.
pub mod Common
pub mod Errors
pub mod Result
pub mod Breaker
pub mod Bucket
pub mod Chunker
pub mod Summarizer
pub mod HttpClient
pub mod Model
pub mod Providers
pub mod Database
pub mod Queries
pub mod Repo
pub mod Rager
pub mod Config
pub mod Handlers
pub mod Worker
