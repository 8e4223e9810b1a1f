-- ===== src/Chunker.antt =====
-- internal/core/chunker/chunker.go, over bytes. The regular expression `[.!?]+` matches maximal
-- runs of three ASCII characters, which never occur inside a longer UTF-8 character.
pub mod Sentences
pub mod Windows
mod Examples
use learn_rag.Common.{
  ℕ, zero, suc, ◌+◌, ◌-◌, Bool, true, false, ◌&&◌, ◌||◌, Option, none, some, List, [], ◌∷◌, ◌++◌,
  if◌then◌else◌, ◌==◌, ltb, length,
}
use learn_rag.Common.Text.{Text, codes, join, is_empty, slice}
use learn_rag.Common.Text.Space.{trim_space}
use learn_rag.Common.{drop}

abbrev pub chunk_size : ℕ
chunk_size = 3

abbrev pub stride : ℕ
stride = chunk_size - 1

unfoldable pub is_end : ℕ → Bool
is_end c = c == b'.' || c == b'!' || c == b'?'

-- `sentenceSplitter.FindAllStringIndex(text, -1)`: the bounds of the maximal runs, in order; `i` is
-- the position reached, and the option the start of the run that is being read.
find_all_index : ℕ → Option ℕ → Text → List (ℕ × ℕ)
find_all_index i none [] = []
find_all_index i (some start) [] = (start, i) ∷ []
find_all_index i none (c ∷ t) = find_all_index (i + 1) (if is_end c then some i else none) t
find_all_index i (some start) (c ∷ t) =
    let rest = find_all_index (i + 1) (if is_end c then some start else none) t in
    if is_end c then rest else (start, i) ∷ rest

-- Appends a sentence unless it is blank.
abbrev pub keep : Text → List Text → List Text
keep s rest = if is_empty s then rest else s ∷ rest

-- The loop of `splitSentences` over the matches, and what follows the last one.
split_loop : Text → ℕ → List (ℕ × ℕ) → List Text
split_loop text start [] = keep (trim_space (drop start text)) []
split_loop text start ((from, end) ∷ idx) =
    keep (trim_space (slice text start end)) (split_loop text end idx)

-- `splitSentences`.
unfoldable pub split_sentences : Text → List Text
unfolding split_loop find_all_index is_end
split_sentences text = split_loop text 0 (find_all_index 0 none text)

-- The loop of `Chunk`. `start` grows by `stride`, so the number of sentences is fuel enough
-- (`Windows`).
chunk_loop : ℕ → List Text → ℕ → List Text
chunk_loop zero sentences start = []
chunk_loop (suc fuel) sentences start =
    let end =
      if ltb (length sentences) (start + chunk_size)
      then length sentences
      else start + chunk_size in
    let more = chunk_loop fuel sentences (start + stride) in
    let rest = if end == length sentences then [] else more in
    if ltb start (length sentences) then join (codes " ") (slice sentences start end) ∷ rest else []

-- `Chunk`.
unfoldable pub chunk : Text → List Text
unfolding chunk_loop
chunk text =
    let sentences = split_sentences text in
    if length sentences == 0 then [] else chunk_loop (length sentences) sentences 0
