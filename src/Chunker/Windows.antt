-- ===== src/Chunker/Windows.antt =====
-- The chunks are the overlapping windows of the sentences: an index-free description of `Chunk`.
use native.Mathlib.Decide.{dec_lt}
use learn_rag.Common.{
  ℕ, zero, suc, ◌+◌, ◌-◌, ◌≤◌, ◌<◌, ◌≡◌, refl, ap, List, [], ◌∷◌, ◌++◌, map, arith, length, take,
  drop, drop-add, drop_all, take_all, length-drop, concat, ltb, lt→ltb, ge→ltb, suc-==-zero,
  ==_refl, ◌==◌, if◌then◌else◌, false,
}
use learn_rag.Common.Text.{Text, codes, join}
use learn_rag.Chunker.{split_sentences, chunk_size, stride, chunk_loop, chunk}

-- Windows of three, each starting with the last element of the one before.
abbrev pub windows {ℓ} : {A : Type ℓ} → List A → List (List A)
windows [] = []
windows (a ∷ []) = (a ∷ []) ∷ []
windows (a ∷ b ∷ []) = (a ∷ b ∷ []) ∷ []
windows (a ∷ b ∷ c ∷ []) = (a ∷ b ∷ c ∷ []) ∷ []
windows (a ∷ b ∷ c ∷ d ∷ xs) = (a ∷ b ∷ c ∷ []) ∷ windows (c ∷ d ∷ xs)

module _ {ℓ} {A : Type ℓ} where
  windows_last : (xs : List A) → 0 < length xs → length xs ≤ 3 → windows xs ≡ xs ∷ []
  windows_last [] h k = absurd (omega arith)
  windows_last (a ∷ []) h k = refl
  windows_last (a ∷ b ∷ []) h k = refl
  windows_last (a ∷ b ∷ c ∷ []) h k = refl
  windows_last (a ∷ b ∷ c ∷ d ∷ xs) h k = absurd (omega arith)

  windows_more : (xs : List A) → 3 < length xs → windows xs ≡ take 3 xs ∷ windows (drop 2 xs)
  windows_more [] h = absurd (omega arith)
  windows_more (a ∷ []) h = absurd (omega arith)
  windows_more (a ∷ b ∷ []) h = absurd (omega arith)
  windows_more (a ∷ b ∷ c ∷ []) h = absurd (omega arith)
  windows_more (a ∷ b ∷ c ∷ d ∷ xs) h = refl

-- The end of a window that reaches the last sentence, and of one that does not.
end_last :
    (start n : ℕ)
    → n ≤ start + chunk_size
    → (if ltb n (start + chunk_size) then n else start + chunk_size) ≡ n
end_last start n h = ground arith

end_more :
    (start n : ℕ)
    → start + chunk_size < n
    → ((if ltb n (start + chunk_size) then n else start + chunk_size) ≡ start + chunk_size)
      × ((start + chunk_size == n) ≡ false)
      × (start + chunk_size - start ≡ 3)
end_more start n h = ground arith

abbrev pub joined : List (List Text) → List Text
joined = map (join (codes " "))

-- With enough fuel the loop yields the windows of the sentences from `start` on.
chunk_loop-windows :
    (fuel : ℕ) (sentences : List Text) (start : ℕ)
    → length sentences ≤ start + fuel
    → chunk_loop fuel sentences start ≡ joined (windows (drop start sentences))
unfolding chunk_loop
chunk_loop-windows zero sentences start h = rw (drop_all start sentences (omega arith))
chunk_loop-windows (suc fuel) sentences start h = elim (dec_lt start (length sentences)) [
  | no past ↦
      let none_left : length sentences ≤ start = omega arith in
      rw (ge→ltb start (length sentences) none_left, drop_all start sentences none_left)
  | yes here ↦ elim (dec_lt (start + chunk_size) (length sentences)) [
    | no last ↦
        let cut = end_last start (length sentences) (omega arith) in
        let left = length-drop start sentences in
        rw (lt→ltb _ _ here, cut, ==_refl (length sentences))
          (rw (
            take_all (length sentences - start) (drop start sentences) (omega (arith, left)),
            windows_last (drop start sentences) (omega (arith, left)) (omega (arith, left)),
          ))
    | yes more ↦
        let cut = end_more start (length sentences) more in
        let left = length-drop start sentences in
        let rest = chunk_loop-windows fuel sentences (start + stride) (omega arith) in
        rw (lt→ltb _ _ here, cut.0, cut.1, cut.2)
          (rw (
            windows_more (drop start sentences) (omega (arith, left)),
            drop-add start 2 sentences,
            rest,
          ))
  ]
]

chunk_loop_all :
    (s : List Text) → (if length s == 0 then [] else chunk_loop (length s) s 0) ≡ joined (windows s)
chunk_loop_all [] = refl
chunk_loop_all (x ∷ s) =
    rw (suc-==-zero (length s)) (chunk_loop-windows (length (x ∷ s)) (x ∷ s) 0 (omega arith))

-- `Chunk` returns the windows of three sentences that overlap by one, each joined by a space: its
-- index loop computes the structural recursion `windows`.
pub chunk-windows : (text : Text) → chunk text ≡ joined (windows (split_sentences text))
unfolding chunk
chunk-windows text = chunk_loop_all (split_sentences text)

-- The first window, and the others without the element that they share with the one before.
abbrev pub stitch {ℓ} : {A : Type ℓ} → List (List A) → List A
stitch [] = []
stitch (w ∷ ws) = w ++ concat (map (drop 1) ws)

-- Each window but the last has three elements, and the next one, of two at least, starts with its last one; the last
-- has one to three.
abbrev pub Overlap : {A : Type 0} → List (List A) → Type 0
Overlap [] = Unit
Overlap (w ∷ []) = (0 < length w) × (length w ≤ 3)
Overlap (w ∷ v ∷ ws) = (length w ≡ 3) × (1 < length v) × (take 1 v ≡ drop 2 w) × Overlap (v ∷ ws)

module _ {ℓ} {A : Type ℓ} where
  shared_dropped : (x : A) (ys : List A) → concat (map (drop 1) (windows (x ∷ ys))) ≡ ys
  shared_dropped x [] = refl
  shared_dropped x (b ∷ []) = refl
  shared_dropped x (b ∷ c ∷ []) = refl
  shared_dropped x (b ∷ c ∷ d ∷ xs) = ap (λ zs. b ∷ c ∷ zs) (shared_dropped c (d ∷ xs))

  stitch-windows : (xs : List A) → stitch (windows xs) ≡ xs
  stitch-windows [] = refl
  stitch-windows (a ∷ []) = refl
  stitch-windows (a ∷ b ∷ []) = refl
  stitch-windows (a ∷ b ∷ c ∷ []) = refl
  stitch-windows (a ∷ b ∷ c ∷ d ∷ xs) = ap (λ zs. a ∷ b ∷ c ∷ zs) (shared_dropped c (d ∷ xs))

module _ {A : Type 0} where
  windows-Overlap : (xs : List A) → Overlap (windows xs)
  windows-Overlap [] = tt
  windows-Overlap (a ∷ []) = (omega arith, omega arith)
  windows-Overlap (a ∷ b ∷ []) = (omega arith, omega arith)
  windows-Overlap (a ∷ b ∷ c ∷ []) = (omega arith, omega arith)
  windows-Overlap (a ∷ b ∷ c ∷ d ∷ []) = (refl, omega arith, refl, windows-Overlap (c ∷ d ∷ []))
  windows-Overlap (a ∷ b ∷ c ∷ d ∷ e ∷ []) =
      (refl, omega arith, refl, windows-Overlap (c ∷ d ∷ e ∷ []))
  windows-Overlap (a ∷ b ∷ c ∷ d ∷ e ∷ f ∷ xs) =
      (refl, omega arith, refl, windows-Overlap (c ∷ d ∷ e ∷ f ∷ xs))

-- The chunks of a text are the joins of windows of its sentences: each but the last has three, and its last one is the first
-- of the next, which has two at least; the last has one to three. Without the shared ones they give back all
-- sentences of the text in order: none is lost or otherwise repeated.
pub chunk_covers :
    (text : Text)
    → (ws : List (List Text)) × (chunk text ≡ joined ws)
      × (stitch ws ≡ split_sentences text)
      × Overlap ws
chunk_covers text =
    let s = split_sentences text in
    (windows s, chunk-windows text, stitch-windows s, windows-Overlap s)
