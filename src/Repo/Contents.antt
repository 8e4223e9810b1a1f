-- ===== src/Repo/Contents.antt =====
-- internal/database/repo/transcripts.go, chunks.go and summaries.go.
use learn_rag.Common.{ℕ, String, List, [], ◌∷◌}
use learn_rag.Common.Text.{Text}
use learn_rag.Errors.{api, err_not_found}
use learn_rag.Model.{Transcript, Chunk, Summary, Vector}
use learn_rag.Database.{M, ◌>>◌, return, map_err, exec, with_tenant_tx}
use learn_rag.Queries.Contents.{
  upsert_transcript, delete_chunks_by_video_id, insert_chunk, search_chunks,
  get_summary_by_video_id, upsert_summary,
}
use learn_rag.Repo.{map_no_rows}
use learn_rag.Repo.Videos.{optional_name}

-- `TranscriptRepository.Upsert`.
unfoldable pub save_transcript : Transcript → M (Unit {0})
unfolding with_tenant_tx exec upsert_transcript
save_transcript t = with_tenant_tx t.tenant_id (do exec (upsert_transcript t); return tt)

-- `ChunkRepository.DeleteByVideoID`.
unfoldable pub delete_chunks : String → String → M (Unit {0})
unfolding with_tenant_tx exec delete_chunks_by_video_id
delete_chunks video_id tenant_id =
    with_tenant_tx tenant_id (exec (delete_chunks_by_video_id video_id tenant_id))

-- The loop of `Insert`.
unfoldable pub insert_each : List Chunk → M (Unit {0})
unfolding exec insert_chunk
insert_each [] = return tt
insert_each (c ∷ chunks) = do exec (insert_chunk c); insert_each chunks

-- `ChunkRepository.Insert`: one transaction for all chunks, of the tenant of the first.
unfoldable pub insert_chunks : List Chunk → M (Unit {0})
unfolding with_tenant_tx insert_each
insert_chunks [] = return tt
insert_chunks (c ∷ chunks) = with_tenant_tx c.tenant_id (insert_each (c ∷ chunks))

-- `ChunkRepository.Search`.
unfoldable pub search : String → Vector → Text → ℕ → M (List (Chunk × Text))
unfolding with_tenant_tx exec search_chunks
search tenant_id embedding segment_name limit =
    with_tenant_tx tenant_id
      (exec (search_chunks tenant_id (optional_name segment_name) embedding limit))

-- `SummaryRepository.Upsert`.
unfoldable pub save_summary : Summary → M (Unit {0})
unfolding with_tenant_tx exec upsert_summary
save_summary s = with_tenant_tx s.tenant_id (do exec (upsert_summary s); return tt)

-- `SummaryRepository.GetByVideoID`.
unfoldable pub get_summary : String → String → M Summary
unfolding with_tenant_tx exec get_summary_by_video_id map_no_rows
get_summary video_id tenant_id =
    map_err (map_no_rows (api err_not_found))
      (with_tenant_tx tenant_id (exec (get_summary_by_video_id video_id tenant_id)))
