-- ===== src/Worker/Examples.antt =====
-- Three sections embedded in batches of two, by a service that answers one vector for each batch.
use learn_rag.Common.{◌≡◌, refl, List, [], ◌∷◌}
use learn_rag.Common.Int.{pos}
use learn_rag.Common.Text.{Text, codes}
use learn_rag.Result.{ok}
use learn_rag.Model.{Chunk, Vector}
use learn_rag.Database.{World, M, return}
use learn_rag.Database.Sample.{empty_db, sample_world}
use learn_rag.Worker.{new_chunk, embed_sections}
use learn_rag.Worker.Embedding.{AreChunks, embed_sections-AreChunks}

abbrev sections : List Text
sections = codes "a b c" ∷ codes "c d e" ∷ codes "e f" ∷ []

abbrev service : List Text → M (List Vector)
service texts = return ((1 ∷ []) ∷ [])

abbrev world : World
world = sample_world 7 (λ _. "u") empty_db

abbrev chunks : List Chunk
chunks =
    new_chunk "t1" "v1" 7 "u" 0 (codes "a b c") (1 ∷ [])
    ∷ new_chunk "t1" "v1" 7 "u" 1 (codes "c d e") []
    ∷ new_chunk "t1" "v1" 7 "u" 2 (codes "e f") (1 ∷ [])
    ∷ []

embedded :
    embed_sections service "t1" "v1" (pos 2) sections world
    ≡ (ok chunks, record world { reads = 1; minted = 3 })
unfolding embed_sections
embedded = refl

embed_sections-AreChunks_example : AreChunks "t1" "v1" 0 sections chunks
embed_sections-AreChunks_example =
    embed_sections-AreChunks service "t1" "v1" (pos 2) sections world embedded
