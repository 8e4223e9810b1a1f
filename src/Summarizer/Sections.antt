-- ===== src/Summarizer/Sections.antt =====
-- The cuts of a long text: where they fall, that they lose nothing, and that the sections fit.
use learn_rag.Common.{
  ℕ, zero, suc, ◌*◌, ◌%◌, ◌^◌, ◌≤◌, ◌<◌, ◌≡◌, refl, ap, ◌∙◌, Bool, true, false, ◌&&◌, List, [], ◌∷◌,
  ◌++◌, arith, length, take, drop, get_or, take-append-drop, length-drop, length-take, All,
  All-mono, concat, if◌then◌else◌, ltb, ◌==◌, inl, inr, le→leb, gt→leb, suc-==-zero, Bool-cases,
  ◌⊎◌,
}
use native.Mathlib.Decide.{dec_le}
use mathlib.Core.List.{append-nil}
use learn_rag.Common.Text.{Text}
use learn_rag.Chunker.{is_end}
use learn_rag.Summarizer.{
  estimate_tokens, cut_loop, cut_at_sentence_boundary, section_chars, sections_loop, split_sections,
}

-- Byte `i - 1` ends a sentence and byte `i` is a space.
pub is_boundary : Text → ℕ → Bool
is_boundary text zero = false
is_boundary text (suc i) =
    is_end (get_or text i 0) && (ltb (suc i) (length text) && get_or text (suc i) 0 == b' ')

-- No position above `k`, up to `n`, is a boundary.
abbrev pub NoneAbove : Text → ℕ → ℕ → Type 0
NoneAbove text k n = (i : ℕ) → k < i → i ≤ n → is_boundary text i ≡ false

-- What the cut is: the last boundary up to `n`, or `limit` if there is none.
abbrev pub IsCut : Text → ℕ → ℕ → ℕ → Type 0
IsCut text limit n r =
    ((is_boundary text r ≡ true) × (0 < r) × (r ≤ n) × NoneAbove text r n)
    ⊎ ((r ≡ limit) × NoneAbove text 0 n)

cut_loop-zero : (text : Text) (limit : ℕ) → cut_loop text limit zero ≡ limit
unfolding cut_loop
cut_loop-zero text limit = refl

cut_loop_step :
    (text : Text) (limit i : ℕ)
    → cut_loop text limit (suc i)
      ≡ (if is_boundary text (suc i) then suc i else cut_loop text limit i)
unfolding cut_loop is_boundary
cut_loop_step text limit i = refl

NoneAbove-suc :
    (text : Text) (k n : ℕ)
    → is_boundary text (suc n) ≡ false
    → NoneAbove text k n
    → NoneAbove text k (suc n)
NoneAbove-suc text k n here below i p q = elim (dec_le i n) [
  | yes low ↦ below i p low
  | no high ↦ let e : i ≡ suc n = omega arith in rw e here
]

cut_loop-IsCut : (text : Text) (limit n : ℕ) → IsCut text limit n (cut_loop text limit n)
cut_loop-IsCut text limit zero = inr (cut_loop-zero text limit, λ i p q. absurd (omega arith))
cut_loop-IsCut text limit (suc n) = elim (Bool-cases (is_boundary text (suc n))) [
  | inl here ↦
      rw (cut_loop_step text limit n, here)
        (inl (here, omega arith, omega arith, λ i p q. absurd (omega arith)))
  | inr not_here ↦
      rw (cut_loop_step text limit n, not_here)
        (elim (cut_loop-IsCut text limit n) [
          | inl (bound, above, within, later) ↦
              inl (bound, above, omega arith, NoneAbove-suc text _ n not_here later)
          | inr (same, later) ↦ inr (same, NoneAbove-suc text 0 n not_here later)
        ])
]

-- A section is cut at the last place, within its limit, where a sentence end is followed by a space;
-- if there is no such place, at the limit itself: the smaller of the text's length and `max_chars`.
pub cut_at_sentence_boundary-IsCut :
    (text : Text) (max_chars : ℕ)
    → let limit = if ltb (length text) max_chars then length text else max_chars in
      IsCut text limit limit (cut_at_sentence_boundary text max_chars)
unfolding cut_at_sentence_boundary
cut_at_sentence_boundary-IsCut text max_chars = cut_loop-IsCut text _ _

cut_range :
    (text : Text) (max_chars : ℕ)
    → 0 < max_chars
    → max_chars < length text
    → (0 < cut_at_sentence_boundary text max_chars)
      × (cut_at_sentence_boundary text max_chars ≤ max_chars)
cut_range text max_chars p q =
    let limit : ℕ = if ltb (length text) max_chars then length text else max_chars in
    let e : limit ≡ max_chars = ground arith in
    elim (cut_at_sentence_boundary-IsCut text max_chars) [
      | inl (bound, above, within, later) ↦ (above, rw e at within)
      | inr (same, later) ↦ (omega (arith, e, same), omega (arith, e, same))
    ]

abbrev Fits : ℕ → List Text → Type 0
Fits chars = All (λ s. (0 < length s) × (length s ≤ chars))

sections_loop_sound :
    (fuel chars : ℕ) (text : Text)
    → 0 < chars
    → length text ≤ fuel
    → (concat (sections_loop fuel chars text) ≡ text) × Fits chars (sections_loop fuel chars text)
unfolding sections_loop
sections_loop_sound zero chars [] p q = (refl, tt)
sections_loop_sound zero chars (c ∷ text) p q = absurd (omega arith)
sections_loop_sound (suc fuel) chars [] p q = (refl, tt)
sections_loop_sound (suc fuel) chars (c ∷ text) p q = elim (dec_le (length (c ∷ text)) chars) [
  | yes fits ↦
      rw (suc-==-zero (length text), le→leb (length (c ∷ text)) chars fits)
        (append-nil (c ∷ text), ((omega arith, fits), tt))
  | no long ↦
      let cut = cut_at_sentence_boundary (c ∷ text) chars in
      let range = cut_range (c ∷ text) chars p (omega arith) in
      let (rest, fit) =
        sections_loop_sound fuel chars (drop cut (c ∷ text)) p
          (omega (arith, length-drop cut (c ∷ text), range)) in
      let size = length-take cut (c ∷ text) in
      rw (suc-==-zero (length text), gt→leb (length (c ∷ text)) chars (omega arith))
        (
          ap (λ t. take cut (c ∷ text) ++ t) rest ∙ take-append-drop cut (c ∷ text),
          ((omega (arith, size, range), omega (arith, size, range)), fit),
        )
]

section_chars_range :
    (max_tokens : ℕ)
    → 0 < max_tokens
    → max_tokens < 2 ^ 63
    → (0 < section_chars max_tokens) × (section_chars max_tokens ≤ max_tokens * 2)
unfolding section_chars
section_chars_range max_tokens p q =
    let e : max_tokens * 2 % 2 ^ 64 ≡ max_tokens * 2 = omega arith in rw e (ground arith)

fits_budget :
    (chars max_tokens : ℕ) (s : Text)
    → chars ≤ max_tokens * 2
    → (0 < length s) × (length s ≤ chars)
    → (0 < length s) × (estimate_tokens s * 2 ≤ max_tokens)
unfolding estimate_tokens
fits_budget chars max_tokens s small h = (h.0, omega (arith, h.1))

-- For a budget that `New` gives (positive, below 2^63) the sections of a text, put together, are
-- the text; none is empty, and each is estimated at no more than half the budget.
pub split_sections_sound :
    (max_tokens : ℕ) (text : Text)
    → 0 < max_tokens
    → max_tokens < 2 ^ 63
    → (concat (split_sections max_tokens text) ≡ text)
      × All
          (λ s. (0 < length s) × (estimate_tokens s * 2 ≤ max_tokens))
          (split_sections max_tokens text)
unfolding split_sections
split_sections_sound max_tokens text p q =
    let chars = section_chars max_tokens in
    let (positive, small) = section_chars_range max_tokens p q in
    let (whole, fit) = sections_loop_sound (length text) chars text positive (omega arith) in
    let nonzero : (max_tokens == 0) ≡ false = ground arith in
    rw nonzero (whole, All-mono _ _ _ (λ s h. fits_budget chars max_tokens s small h) fit)
