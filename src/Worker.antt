-- ===== src/Worker.antt =====
-- internal/worker/processor.go: the embedding of the sections of a transcript. The embedding service
-- is a parameter.
pub mod Embedding
pub mod Media
pub mod Pipeline
pub mod Queue
pub mod Retention
pub mod Draining
pub mod Calls
pub mod Steps
pub mod Life
pub mod Final
pub mod Files
pub mod Transcripts
mod Examples
mod PipelineExamples
use learn_rag.Common.{ℕ, zero, suc, String, List, [], ◌∷◌, ◌++◌, length, take, drop, if◌then◌else◌}
use learn_rag.Common.Int.{ℤ, pos, leb_ℤ, pos_part}
use learn_rag.Common.Text.{Text}
use learn_rag.Errors.{wrap}
use learn_rag.Model.{Chunk, Vector}
use learn_rag.Database.{World, M, ◌>>=◌, and_then, return, map_err, new_uuid, time_now}

-- `embs[i]` for the first text that is left, the zero value when there is none.
abbrev pub first_vector : List Vector → Vector
first_vector [] = []
first_vector (v ∷ _) = v

abbrev pub later_vectors : List Vector → List Vector
later_vectors [] = []
later_vectors (_ ∷ vs) = vs

-- The chunk of one text.
abbrev pub new_chunk : String → String → ℕ → String → ℕ → Text → Vector → Chunk
new_chunk tenant_id video_id now id index text embedding = record {
  id = id;
  tenant_id = tenant_id;
  video_id = video_id;
  chunk_index = index;
  content = text;
  created_at = now;
  embedding = embedding;
}

-- The loop over the texts of a batch.
unfoldable pub chunk_batch :
    String → String → ℕ → List Text → List Vector → List Chunk → M (List Chunk)
unfolding new_uuid
chunk_batch tenant_id video_id now [] embs chunks = return chunks
chunk_batch tenant_id video_id now (text ∷ texts) embs chunks = do
  id ← new_uuid
  chunk_batch tenant_id video_id now texts (later_vectors embs)
      (chunks ++ new_chunk tenant_id video_id now id (length chunks) text (first_vector embs) ∷ [])

-- The loop over the batches; `sections` are those from `start` on, of which each round takes at least one.
unfoldable pub embed_loop :
    (List Text → M (List Vector))
    → String
    → String
    → ℕ
    → ℕ
    → ℕ
    → List Text
    → List Chunk
    → M (List Chunk)
unfolding chunk_batch
embed_loop embed_batch tenant_id video_id now batch_size zero sections chunks = return chunks
embed_loop embed_batch tenant_id video_id now batch_size (suc fuel) [] chunks = return chunks
embed_loop embed_batch tenant_id video_id now batch_size (suc fuel) (s ∷ sections) chunks = do
  embs ← map_err (wrap "worker: embed batch") (embed_batch (take batch_size (s ∷ sections)))
  more ← chunk_batch tenant_id video_id now (take batch_size (s ∷ sections)) embs chunks
  embed_loop embed_batch tenant_id video_id now batch_size fuel (drop batch_size (s ∷ sections))
      more

-- `embeddingBatchSize`, and 16 when it is not positive.
abbrev pub batch_size_of : ℤ → ℕ
batch_size_of n = if leb_ℤ n (pos 0) then 16 else pos_part n

-- `embedSections`.
unfoldable pub embed_sections :
    (List Text → M (List Vector)) → String → String → ℤ → List Text → M (List Chunk)
unfolding embed_loop time_now
embed_sections embed_batch tenant_id video_id embedding_batch_size sections = do
  now ← time_now
  embed_loop embed_batch tenant_id video_id now (batch_size_of embedding_batch_size)
      (length sections) sections []
