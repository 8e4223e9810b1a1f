-- ===== src/Summarizer/Calls.antt =====
-- Which calls `Summarize` makes of the language model.
use learn_rag.Common.{
  ℕ, ◌≤◌, ◌<◌, ◌≡◌, refl, ap, ◌∙◌, sym, false, List, [], ◌∷◌, ◌++◌, arith, length, leb, inl, inr,
  le→leb, gt→leb,
}
use mathlib.Core.List.{append_assoc, append-nil}
use learn_rag.Common.Text.{Text, join}
use learn_rag.Result.{Result, ok, err, Result-cases}
use learn_rag.Summarizer.{
  system_prompt, estimate_tokens, wrap_document, split_sections, Llm, direct, summarize_each,
  reduce, summarize,
}

-- A call: the system prompt and the text.
abbrev pub Call : Type 0
Call = Text × Text

-- The call that `direct` makes for a raw text.
abbrev pub prompt : Text → Call
prompt raw = (system_prompt, wrap_document raw)

-- A call with what it was answered.
abbrev pub Entry : Type 0
Entry = Call × Result Text

-- Successful calls, one for each section.
abbrev pub answered : List Text → List Text → List Entry
answered [] outs = []
answered (_ ∷ _) [] = []
answered (section ∷ sections) (out ∷ outs) = (prompt section, ok out) ∷ answered sections outs

module _ {S : Type 0} where
  -- A language model that also notes its calls and their answers, in order.
  unfoldable pub logged : Llm S → Llm (S × List Entry)
  logged llm system text (s, calls) =
      let (r, s') = llm system text s in (r, (s', calls ++ ((system, text), r) ∷ []))

  direct_calls :
      (raw : Text) (llm : Llm S) (s : S) (calls : List Entry)
      → (direct raw (logged llm) (s, calls)).1.1 ≡ calls ++ (prompt raw, (direct raw llm s).0) ∷ []
  unfolding direct logged
  direct_calls raw llm s calls = refl

  direct_answer :
      (raw : Text) (llm : Llm S) (s : S) (calls : List Entry)
      → (direct raw (logged llm) (s, calls)).0 ≡ (direct raw llm s).0
  unfolding direct logged
  direct_answer raw llm s calls = refl

  -- A call that succeeded.
  direct_ok :
      (raw : Text) (llm : Llm S) (s : S) (calls : List Entry) (out : Text)
      → (direct raw (logged llm) (s, calls)).0 ≡ ok out
      → (direct raw (logged llm) (s, calls)).1.1 ≡ calls ++ (prompt raw, ok out) ∷ []
  direct_ok raw llm s calls out e =
      direct_calls raw llm s calls
      ∙ ap (λ r. calls ++ (prompt raw, r) ∷ []) (sym (direct_answer raw llm s calls) ∙ e)

  each_calls :
      (sections : List Text) (llm : Llm S) (s : S) (calls : List Entry) (outs : List Text)
      → (summarize_each sections (logged llm) (s, calls)).0 ≡ ok outs
      → ((summarize_each sections (logged llm) (s, calls)).1.1 ≡ calls ++ answered sections outs)
        × (length outs ≡ length sections)
  unfolding summarize_each direct logged
  each_calls [] llm s calls outs e = (sym (append-nil calls), ground arith)
  each_calls (raw ∷ sections) llm s calls outs e =
      let s' : S = (direct raw llm s).1 in
      let later : List Entry = calls ++ (prompt raw, (direct raw llm s).0) ∷ [] in
      elim (Result-cases (direct raw llm s).0) [
        | inr (x, failed) ↦ ground arith
        | inl (text, first) ↦
            elim (Result-cases (summarize_each sections (logged llm) (s', later)).0) [
              | inr (x, failed) ↦ ground arith
              | inl (texts, rest) ↦
                  let (noted, count) = each_calls sections llm s' later texts rest in
                  let outs_are : text ∷ texts ≡ outs = ground arith in
                  rw (← outs_are, first, summarize_each)
                    (
                      noted
                          ∙ append_assoc calls ((prompt raw, (direct raw llm s).0) ∷ [])
                              (answered sections texts)
                          ∙ ap (λ r. calls ++ (prompt raw, r) ∷ answered sections texts) first,
                      ground arith,
                    )
            ]
      ]

abbrev each_of : {S : Type 0} → ℕ → Text → Llm S → S → Result (List Text) × (S × List Entry)
each_of max_tokens text llm s = summarize_each (split_sections max_tokens text) (logged llm) (s, [])

reduce_calls :
    {S : Type 0} (max_tokens : ℕ) (text : Text) (llm : Llm S) (s : S) (out : Text)
    (combined : Result (List Text))
    → (each_of max_tokens text llm s).0 ≡ combined
    → (reduce (each_of max_tokens text llm s).0 (logged llm) (each_of max_tokens text llm s).1).0
      ≡ ok out
    → (outs : List Text) × (length outs ≡ length (split_sections max_tokens text))
      × ((reduce
            (each_of max_tokens text llm s).0
            (logged llm)
            (each_of max_tokens text llm s).1).1.1
          ≡ answered (split_sections max_tokens text) outs
            ++ (prompt (join (10 ∷ 10 ∷ []) outs), ok out) ∷ [])
unfolding reduce
reduce_calls max_tokens text llm s out (err x) e r = cc (rw (e, reduce) at r)
reduce_calls max_tokens text llm s out (ok outs) e r =
    let (noted, count) = each_calls (split_sections max_tokens text) llm s [] outs e in
    (
      outs,
      count,
      rw (e, reduce)
          (direct_ok (join (10 ∷ 10 ∷ []) outs) llm _ _ out (rw (e, reduce) at r)
            ∙ ap (λ c. c ++ (prompt (join (10 ∷ 10 ∷ []) outs), ok out) ∷ []) noted),
    )

-- `Summarize`, when it succeeds, makes one call with the whole text if its estimate is within the
-- budget; otherwise one for each section, in order, and a last one with what those calls were answered,
-- joined by blank lines. Every call succeeded, the last one with the result; each has the constant
-- system prompt, and its text is wrapped in document tags.
pub summarize_calls :
    {S : Type 0} (max_tokens : ℕ) (text : Text) (llm : Llm S) (s : S) (out : Text)
    → (summarize max_tokens text (logged llm) (s, [])).0 ≡ ok out
    → let calls = (summarize max_tokens text (logged llm) (s, [])).1.1 in
      let sections = split_sections max_tokens text in
      (estimate_tokens text ≤ max_tokens → calls ≡ (prompt text, ok out) ∷ [])
      × (max_tokens < estimate_tokens text
          → (outs : List Text) × (length outs ≡ length sections)
            × (calls ≡ answered sections outs ++ (prompt (join (10 ∷ 10 ∷ []) outs), ok out) ∷ []))
unfolding summarize
summarize_calls max_tokens text llm s out e = (
  λ short. rw (le→leb _ _ short) (direct_ok text llm s [] out (rw (le→leb _ _ short) at e)),
  λ long.
      let each = summarize_each (split_sections max_tokens text) (logged llm) (s, []) in
      let shut : leb (estimate_tokens text) max_tokens ≡ false = gt→leb _ _ long in
      rw shut (reduce_calls max_tokens text llm s out each.0 refl (rw shut at e)),
)
