-- ===== src/Worker/Files.antt =====
-- Which downloaded files `validateMediaFile` of internal/worker/processor.go accepts.
use learn_rag.Common.{
  ℕ, ◌≡◌, ◌≢◌, ◌↔◌, ◌⊎◌, inl, inr, refl, arith, true, Option, none, some, [], ◌∷◌, ◌++◌, All,
  Bool-cases,
}
use learn_rag.Common.Int.{ℤ, pos, ◌≤ℤ◌, ◌<ℤ◌}
use learn_rag.Common.Text.{Text}
use learn_rag.Result.{Result, ok, err}
use learn_rag.Model.{Kind}
use learn_rag.Worker.Media.{
  media_exts, is_in, ext_from, ext, to_lower, matches_kind, check_type, validate_media_file,
}

-- The type that the file was detected to have fits the kind.
abbrev pub TypeFits : Kind → Result Text → Type 0
TypeFits kind (ok mime) = matches_kind (to_lower mime) kind ≡ true
TypeFits kind (err _) = ⊥

check_type-fits :
    (kind : Kind) (detected : Result Text)
    → (check_type kind detected ≡ ok tt) ↔ TypeFits kind detected
check_type-fits kind (ok mime) = elim (Bool-cases (matches_kind (to_lower mime) kind)) [
  | inl fits ↦ ground arith
  | inr fails ↦ ground arith
]
check_type-fits kind (err e) = (λ h. cc, λ h. absurd h)

-- A downloaded file is accepted exactly when it is not empty, it is no larger than the limit, if that is positive, and
-- its key has one of the extensions of the job's kind or its detected type is of that kind.
pub validate_media_file-accepts :
    (size : ℤ) (file_key : Text) (kind : Kind) (max_bytes : ℤ) (detected : Result Text)
    → (validate_media_file (ok size) file_key kind max_bytes detected ≡ ok tt) ↔ (
        (pos 0 <ℤ size)
        × ((max_bytes ≤ℤ pos 0) ⊎ (size ≤ℤ max_bytes))
        × ((is_in (media_exts kind) (to_lower (ext file_key)) ≡ true) ⊎ TypeFits kind detected))
unfolding validate_media_file
validate_media_file-accepts size file_key kind max_bytes detected =
    ground (arith, check_type-fits kind detected)

-- No dot and no slash.
abbrev pub IsPlain : ℕ → Type 0
IsPlain c = (c ≢ b'.') × (c ≢ b'/')

ext_from-plain : (dot : Text) (t : Text) → All IsPlain t → ext_from (some dot) t ≡ dot
unfolding ext_from
ext_from-plain dot [] all = refl
ext_from-plain dot (c ∷ t) ((no_dot, no_slash), all) =
    let rest = ext_from-plain dot t all in ground arith

none-plain : (t : Text) → All IsPlain t → ext_from none t ≡ []
unfolding ext_from
none-plain [] all = refl
none-plain (c ∷ t) ((no_dot, no_slash), all) = let rest = none-plain t all in ground arith

ext_from-last :
    (dot : Option Text) (before t : Text)
    → All IsPlain t
    → (ext_from dot (before ++ b'.' ∷ t) ≡ b'.' ∷ t) × (ext_from dot (before ++ b'/' ∷ t) ≡ [])
unfolding ext_from
ext_from-last dot [] t all = (ext_from-plain (b'.' ∷ t) t all, none-plain t all)
ext_from-last dot (c ∷ before) t all =
    let a = ext_from-last none before t all in
    let b = ext_from-last (some (c ∷ (before ++ b'.' ∷ t))) before t all in
    let b' = ext_from-last (some (c ∷ (before ++ b'/' ∷ t))) before t all in
    let d = ext_from-last dot before t all in ground arith

-- The extension of a path is what follows the last dot, with the dot, and none if a slash comes after the last dot.
pub ext-last :
    (before t : Text)
    → All IsPlain t
    → (ext (before ++ b'.' ∷ t) ≡ b'.' ∷ t) × (ext (before ++ b'/' ∷ t) ≡ [])
ext-last before t all = ext_from-last none before t all
