-- ===== src/Chunker/Examples.antt =====
-- A text of five sentences, with a run of marks, blanks and an unfinished sentence at the end.
use learn_rag.Common.{◌≡◌, refl, false, List, [], ◌∷◌}
use learn_rag.Common.Text.{Text, codes, join}
use learn_rag.Chunker.{split_sentences, chunk}
use learn_rag.Chunker.Sentences.{pieces, kept, split_sentences-pieces}
use learn_rag.Chunker.Windows.{joined, stitch, Overlap, chunk_covers}
use learn_rag.Common.Text.Space.{trim_space, trim_by, space_len, space_len_rev}

abbrev lesson : Text
lesson = codes "One.  Two?! Three. . Four. five "

computes : Unit {0}
unfolding split_sentences chunk trim_space trim_by space_len space_len_rev join
computes = tt

lesson_sentences :
    split_sentences lesson
    ≡ codes "One." ∷ codes "Two?!" ∷ codes "Three." ∷ codes "." ∷ codes "Four." ∷ codes "five" ∷ []
unfolding computes
lesson_sentences = refl

lesson_chunks :
    chunk lesson ≡ codes "One. Two?! Three." ∷ codes "Three. . Four." ∷ codes "Four. five" ∷ []
unfolding computes
lesson_chunks = refl

split_sentences-pieces_example : split_sentences lesson ≡ kept (pieces false [] lesson)
split_sentences-pieces_example = split_sentences-pieces lesson

chunk_covers_example :
    (ws : List (List Text)) × (chunk lesson ≡ joined ws)
    × (stitch ws ≡ split_sentences lesson)
    × Overlap ws
chunk_covers_example = chunk_covers lesson
