-- ===== src/Common/Text/Space.antt =====
-- `strings.TrimSpace` on bytes: white space is what `unicode.IsSpace` says of the UTF-8 character at
-- either end, one to three bytes long.
use Prim.Native.Nat.{ℕ, zero, suc}
use mathlib.Core.Bool.{Bool, ◌&&◌, ◌||◌}
use mathlib.Core.List.{[], ◌∷◌, reverse}
use learn_rag.Common.Tests.{◌==◌, leb, if◌then◌else◌}
use learn_rag.Common.Lists.{drop, length}
use learn_rag.Common.Text.Base.{Text}

-- '\t', '\n', '\v', '\f', '\r' and ' '.
abbrev pub is_space : ℕ → Bool
is_space a = (leb 9 a && leb a 13) || a == 32

-- U+0085 and U+00A0.
abbrev pub is_space_pair : ℕ → ℕ → Bool
is_space_pair a b = a == 0xc2 && (b == 0x85 || b == 0xa0)

-- U+1680, U+2000 to U+200A, U+2028, U+2029, U+202F, U+205F and U+3000.
abbrev pub is_space_triple : ℕ → ℕ → ℕ → Bool
is_space_triple a b c =
    (a == 0xe1 && b == 0x9a && c == 0x80)
    || (a == 0xe2
        && b == 0x80
        && ((leb 0x80 c && leb c 0x8a) || c == 0xa8 || c == 0xa9 || c == 0xaf))
    || (a == 0xe2 && b == 0x81 && c == 0x9f)
    || (a == 0xe3 && b == 0x80 && c == 0x80)

-- The length of the white-space character that a text starts with, 0 if there is none.
unfoldable pub space_len : Text → ℕ
space_len [] = 0
space_len (a ∷ []) = if is_space a then 1 else 0
space_len (a ∷ b ∷ []) = if is_space a then 1 else if is_space_pair a b then 2 else 0
space_len (a ∷ b ∷ c ∷ _) =
    if is_space a
    then 1
    else if is_space_pair a b
    then 2
    else if is_space_triple a b c
    then 3
    else 0

-- The same at the end, of a reversed text.
unfoldable pub space_len_rev : Text → ℕ
space_len_rev [] = 0
space_len_rev (a ∷ []) = if is_space a then 1 else 0
space_len_rev (a ∷ b ∷ []) = if is_space a then 1 else if is_space_pair b a then 2 else 0
space_len_rev (a ∷ b ∷ c ∷ _) =
    if is_space a
    then 1
    else if is_space_pair b a
    then 2
    else if is_space_triple c b a
    then 3
    else 0

-- Each round takes a byte at least, so the length of the text is fuel enough.
unfoldable pub trim_by : (Text → ℕ) → ℕ → Text → Text
trim_by space zero s = s
trim_by space (suc fuel) s =
    let k = space s in let rest = trim_by space fuel (drop k s) in if k == 0 then s else rest

unfoldable pub trim_space : Text → Text
trim_space s =
    let left = trim_by space_len (length s) s in
    reverse (trim_by space_len_rev (length left) (reverse left))
