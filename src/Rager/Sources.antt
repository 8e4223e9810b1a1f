-- ===== src/Rager/Sources.antt =====
-- Where the references of an answer come from.
use learn_rag.Common.{ℕ, ◌≤◌, ◌≡◌, String, not, List, [], ◌∷◌, All, length, is_some}
use learn_rag.Common.Text.{Text, is_empty}
use learn_rag.Model.{Chunk}
use learn_rag.Database.{World}
use learn_rag.Database.Outcome.{Outcome}
use learn_rag.Repo.Search.{IsHit}
use learn_rag.Repo.Videos.{optional_name}
use learn_rag.Rager.{QueryReference, QueryResult, reference, answer}

-- One reference for each hit, in order, with the data of the hit.
abbrev pub AreReferences : List (Chunk × Text) → List QueryReference → Type 0
AreReferences [] [] = Unit
AreReferences [] (_ ∷ _) = ⊥
AreReferences (_ ∷ _) [] = ⊥
AreReferences (hit ∷ hits) (r ∷ references) =
    (r ≡ reference hit r.segments) × AreReferences hits references

-- What an answer is from: no answer without hits.
abbrev pub IsFrom : List (Chunk × Text) → QueryResult → Type 0
IsFrom hits result =
    AreReferences hits result.references × (is_some result.answer ≡ not (is_empty hits))

-- An answer from hits of a search.
abbrev pub IsSourced : World → String → Text → ℕ → QueryResult → Type 0
IsSourced w tenant_id segment limit result =
    (hits : List (Chunk × Text)) × All (IsHit w w.db tenant_id (optional_name segment)) hits
    × (length hits ≤ limit)
    × IsFrom hits result
