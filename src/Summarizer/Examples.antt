-- ===== src/Summarizer/Examples.antt =====
-- A summarizer with a budget of two tokens, and a model that answers with the length of its input.
use learn_rag.Common.{
  ℕ, suc, ◌*◌, ◌≤◌, ◌<◌, ◌≡◌, refl, List, [], ◌∷◌, ◌++◌, arith, length, All, concat, ltb,
  if◌then◌else◌,
}
use learn_rag.Common.Text.{Text, codes, join}
use learn_rag.Result.{ok}
use learn_rag.Chunker.{is_end}
use learn_rag.Summarizer.{
  estimate_tokens, cut_at_sentence_boundary, split_sections, section_chars, Llm, direct,
  summarize_each, reduce, summarize, wrap_document,
}
use learn_rag.Summarizer.Sections.{IsCut, cut_at_sentence_boundary-IsCut, split_sections_sound}
use learn_rag.Summarizer.Calls.{prompt, answered, logged, summarize_calls}

abbrev notes : Text
notes = codes "One. Two. Three"

notes_sections :
    split_sections 2 notes
    ≡ codes "One." ∷ codes " Two" ∷ codes "." ∷ codes " Thr" ∷ codes "ee" ∷ []
unfolding split_sections section_chars cut_at_sentence_boundary is_end
notes_sections = refl

cut_at_sentence_boundary-IsCut_example :
    let limit = if ltb (length notes) 10 then length notes else 10 in
    IsCut notes limit limit (cut_at_sentence_boundary notes 10)
cut_at_sentence_boundary-IsCut_example = cut_at_sentence_boundary-IsCut notes 10

split_sections_sound_example :
    (concat (split_sections 2 notes) ≡ notes)
    × All (λ s. (0 < length s) × (estimate_tokens s * 2 ≤ 2)) (split_sections 2 notes)
split_sections_sound_example = split_sections_sound 2 notes (omega arith) (omega arith)

abbrev counts : Llm ℕ
counts system text n = (ok (length text ∷ []), suc n)

runs : (summarize 2 notes (logged counts) (0, [])).0 ≡ ok (34 ∷ [])
unfolding summarize estimate_tokens summarize_each reduce direct logged split_sections section_chars
    cut_at_sentence_boundary is_end wrap_document join
runs = refl

summarize_calls_example :
    let calls = (summarize 2 notes (logged counts) (0, [])).1.1 in
    let sections = split_sections 2 notes in
    (estimate_tokens notes ≤ 2 → calls ≡ (prompt notes, ok (34 ∷ [])) ∷ [])
    × (2 < estimate_tokens notes
        → (outs : List Text) × (length outs ≡ length sections)
          × (calls
              ≡ answered sections outs ++ (prompt (join (10 ∷ 10 ∷ []) outs), ok (34 ∷ [])) ∷ []))
summarize_calls_example = summarize_calls 2 notes counts 0 (34 ∷ []) runs
