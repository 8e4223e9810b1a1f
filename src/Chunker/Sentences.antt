-- ===== src/Chunker/Sentences.antt =====
-- `splitSentences` against a reading of the text from left to right, with no index in it.
use mathlib.Core.List.{append_assoc, append-nil}
use learn_rag.Common.{
  ℕ, ◌+◌, ◌-◌, ◌≡◌, ◌≢◌, refl, ap, ◌∙◌, Bool, true, false, not, ◌&&◌, Option, none, some, List, [],
  ◌∷◌, ◌++◌, arith, length, take, drop, length-append, drop_all, Bool-cases, inl, inr, All, concat,
  if◌then◌else◌, is_some,
}
use learn_rag.Common.Text.{Text, slice}
use learn_rag.Common.Text.Space.{trim_space, trim_by}
use learn_rag.Chunker.{is_end, keep, find_all_index, split_loop, split_sentences}

-- The text cut after each run of sentence ends: `in_run` says whether the last byte read is one, and
-- `cur` is the piece read so far.
abbrev pub pieces : Bool → Text → Text → List Text
pieces in_run cur [] = cur ∷ []
pieces in_run cur (c ∷ t) =
    let longer = pieces (is_end c) (cur ++ c ∷ []) t in
    if in_run && not (is_end c) then cur ∷ pieces false (c ∷ []) t else longer

-- The pieces, trimmed, without the blank ones.
abbrev pub kept : List Text → List Text
kept [] = []
kept (p ∷ ps) = keep (trim_space p) (kept ps)

module _ {ℓ} {A : Type ℓ} where
  drop-append : (xs ys : List A) → drop (length xs) (xs ++ ys) ≡ ys
  drop-append [] ys = refl
  drop-append (x ∷ xs) ys = drop-append xs ys

  take-append : (xs ys : List A) → take (length xs) (xs ++ ys) ≡ xs
  take-append [] ys = refl
  take-append (x ∷ xs) ys = ap (λ zs. x ∷ zs) (take-append xs ys)

  slice-append :
      (pre cur t : List A) → slice (pre ++ (cur ++ t)) (length pre) (length pre + length cur) ≡ cur
  slice-append pre cur t =
      let e : length pre + length cur - length pre ≡ length cur = omega arith in
      rw (e, drop-append pre (cur ++ t), take-append cur t)

trim_space_nil : trim_space [] ≡ []
unfolding trim_space trim_by
trim_space_nil = refl

-- Nothing is left after the whole text.
drop_whole : (pre cur : Text) → drop (length pre + length cur) (pre ++ (cur ++ [])) ≡ []
drop_whole pre cur =
    rw append-nil
      (drop_all (length pre + length cur) (pre ++ cur) (omega (arith, length-append pre cur)))

is_some_if : (b : Bool) (i : ℕ) → is_some (if b then some i else none) ≡ b
is_some_if true i = refl
is_some_if false i = refl

-- The invariant of the loop: `pre` is the text before `start`, and `cur` the piece read since.
abbrev Reads : Text → Text → Text → Option ℕ → Type 0
Reads pre cur t st =
    split_loop (pre ++ (cur ++ t)) (length pre) (find_all_index (length pre + length cur) st t)
    ≡ kept (pieces (is_some st) cur t)

Reads-more :
    (pre cur t : Text) (c : ℕ) (st : Option ℕ)
    → Reads pre (cur ++ c ∷ []) t st
    → split_loop
        (pre ++ (cur ++ c ∷ t))
        (length pre)
        (find_all_index (length pre + length cur + 1) st t)
      ≡ kept (pieces (is_some st) (cur ++ c ∷ []) t)
Reads-more pre cur t c st h =
    let next : length pre + length (cur ++ c ∷ []) ≡ length pre + length cur + 1 =
      omega (arith, length-append cur (c ∷ [])) in
    let same : (cur ++ c ∷ []) ++ t ≡ cur ++ c ∷ t = append_assoc cur (c ∷ []) t in
    rw (← next, ← same) h

Reads-cut :
    (pre cur t : Text) (c : ℕ)
    → Reads (pre ++ cur) (c ∷ []) t none
    → split_loop
        (pre ++ (cur ++ c ∷ t))
        (length pre + length cur)
        (find_all_index (length pre + length cur + 1) none t)
      ≡ kept (pieces false (c ∷ []) t)
Reads-cut pre cur t c h = rw (← length-append pre cur, ← append_assoc pre cur (c ∷ t)) h

split_go : (pre cur t : Text) (st : Option ℕ) → Reads pre cur t st
unfolding split_loop find_all_index
split_go pre cur [] none = rw (append-nil cur, drop-append pre cur)
split_go pre cur [] (some s) = rw (slice-append pre cur [], drop_whole pre cur, trim_space_nil)
split_go pre cur (c ∷ t) none = elim (Bool-cases (is_end c)) [
  | inl at_end ↦
      let i : ℕ = length pre + length cur in
      rw (at_end, find_all_index)
        (Reads-more pre cur t c (some i) (split_go pre (cur ++ c ∷ []) t (some i)))
  | inr inside ↦
      rw (inside, find_all_index)
        (Reads-more pre cur t c none (split_go pre (cur ++ c ∷ []) t none))
]
split_go pre cur (c ∷ t) (some s) = elim (Bool-cases (is_end c)) [
  | inl at_end ↦
      rw (at_end, find_all_index)
        (Reads-more pre cur t c (some s) (split_go pre (cur ++ c ∷ []) t (some s)))
  | inr inside ↦
      rw (inside, find_all_index, slice-append pre cur (c ∷ t))
        (ap (keep (trim_space cur)) (Reads-cut pre cur t c (split_go (pre ++ cur) (c ∷ []) t none)))
]

-- `splitSentences` cuts the text after each run of `.`, `!` and `?` and at its end, trims the pieces
-- and drops those that are blank: its loop over match positions computes `pieces`, which reads the
-- text from left to right and has no position in it.
pub split_sentences-pieces : (text : Text) → split_sentences text ≡ kept (pieces false [] text)
unfolding split_sentences
split_sentences-pieces text = split_go [] [] text none

concat-pieces : (in_run : Bool) (cur t : Text) → concat (pieces in_run cur t) ≡ cur ++ t
concat-pieces in_run cur [] = refl
concat-pieces true cur (c ∷ t) = elim (Bool-cases (is_end c)) [
  | inl at_end ↦ rw at_end (concat-pieces true (cur ++ c ∷ []) t ∙ append_assoc cur (c ∷ []) t)
  | inr inside ↦ rw inside (ap (λ x. cur ++ x) (concat-pieces false (c ∷ []) t))
]
concat-pieces false cur (c ∷ t) =
    concat-pieces (is_end c) (cur ++ c ∷ []) t ∙ append_assoc cur (c ∷ []) t

keep_nonblank :
    (s : Text) (rest : List Text) → All (λ s. s ≢ []) rest → All (λ s. s ≢ []) (keep s rest)
keep_nonblank [] rest h = h
keep_nonblank (c ∷ s) rest h = (λ e. cc, h)

kept_nonblank : (ps : List Text) → All (λ s. s ≢ []) (kept ps)
kept_nonblank [] = tt
kept_nonblank (p ∷ ps) = keep_nonblank (trim_space p) (kept ps) (kept_nonblank ps)

-- No byte of the text is lost in cutting, and no sentence is blank.
pub sentences_sound :
    (text : Text)
    → (concat (pieces false [] text) ≡ text) × All (λ s. s ≢ []) (split_sentences text)
sentences_sound text = (
  concat-pieces false [] text,
  rw (split_sentences-pieces text) (kept_nonblank (pieces false [] text)),
)
