-- ===== src/Worker/Media.antt =====
-- internal/worker/processor.go: `validateMediaFile`. A file key is the list of its characters here.
use learn_rag.Common.{
  ℕ, ◌+◌, Bool, true, false, ◌&&◌, Option, none, some, List, [], ◌∷◌, if◌then◌else◌, ◌==◌, leb,
}
use learn_rag.Common.Int.{ℤ, pos, leb_ℤ, ltb_ℤ}
use learn_rag.Common.Text.{Text, codes}
use learn_rag.Errors.{Err, plain, wrap}
use learn_rag.Result.{Result, ok, err}
use learn_rag.Model.{Kind}
use learn_rag.Queries.Segments.{text_eq}

abbrev pub err_file_empty : Err
err_file_empty = plain "downloaded file is empty"

abbrev pub err_file_too_large : Err
err_file_too_large = plain "downloaded file exceeds the size limit"

abbrev pub err_unsupported_content_type : Err
err_unsupported_content_type = plain "unsupported content type for job kind"

-- `mediaExts`.
abbrev pub media_exts : Kind → List Text
media_exts Kind.pdf = codes ".pdf" ∷ []
media_exts Kind.video =
    codes ".mp4"
    ∷ codes ".mov"
    ∷ codes ".m4v"
    ∷ codes ".webm"
    ∷ codes ".mkv"
    ∷ codes ".avi"
    ∷ codes ".mpeg"
    ∷ codes ".mpg"
    ∷ codes ".wmv"
    ∷ []
media_exts Kind.audio =
    codes ".mp3"
    ∷ codes ".wav"
    ∷ codes ".m4a"
    ∷ codes ".ogg"
    ∷ codes ".oga"
    ∷ codes ".aac"
    ∷ codes ".flac"
    ∷ codes ".opus"
    ∷ codes ".webm"
    ∷ []
media_exts (Kind.unknown _) = []

-- `m[key]` of a set of texts.
unfoldable pub is_in : List Text → Text → Bool
unfolding text_eq
is_in [] key = false
is_in (t ∷ texts) key = if text_eq t key then true else is_in texts key

-- `filepath.Ext`: from the last dot of the last element of the path; the option is what has been read since such a dot.
unfoldable pub ext_from : Option Text → Text → Text
ext_from dot [] = elim dot [ none ↦ [] | some t ↦ t ]
ext_from dot (c ∷ path) =
    let after_slash = ext_from none path in
    let after_dot = ext_from (some (c ∷ path)) path in
    let after_other = ext_from dot path in
    if c == b'/' then after_slash else if c == b'.' then after_dot else after_other

abbrev pub ext : Text → Text
ext path = ext_from none path

-- `unicode.ToLower`, of the characters whose lower case is an ASCII character; what it makes of others is
-- no ASCII character, before or after.
abbrev pub lower_char : ℕ → ℕ
lower_char c =
    if leb b'A' c && leb c b'Z'
    then c + 32
    else if c == 0x212a
    then b'k'
    else if c == 0x130
    then b'i'
    else c

-- `strings.ToLower`, for a comparison with ASCII texts.
unfoldable pub to_lower : Text → Text
to_lower [] = []
to_lower (c ∷ t) = lower_char c ∷ to_lower t

-- `strings.HasPrefix`.
unfoldable pub has_prefix : Text → Text → Bool
has_prefix s [] = true
has_prefix [] (_ ∷ _) = false
has_prefix (c ∷ s) (d ∷ prefix) = c == d && has_prefix s prefix

-- `matchesKind`.
unfoldable pub matches_kind : Text → Kind → Bool
unfolding text_eq has_prefix
matches_kind mime Kind.pdf = text_eq mime (codes "application/pdf")
matches_kind mime Kind.video = has_prefix mime (codes "video/")
matches_kind mime Kind.audio = has_prefix mime (codes "audio/")
matches_kind mime (Kind.unknown _) = false

-- The end of `validateMediaFile`, from the type that the file was detected to have.
abbrev pub check_type : Kind → Result Text → Result (Unit {0})
check_type kind (ok mime) =
    if matches_kind (to_lower mime) kind then ok tt else err err_unsupported_content_type
check_type kind (err _) = err err_unsupported_content_type

abbrev pub check_size : ℤ → Text → Kind → ℤ → Result Text → Result (Unit {0})
check_size size file_key kind max_bytes detected =
    if leb_ℤ size (pos 0)
    then err err_file_empty
    else if ltb_ℤ (pos 0) max_bytes && ltb_ℤ max_bytes size
    then err err_file_too_large
    else if is_in (media_exts kind) (to_lower (ext file_key))
    then ok tt
    else check_type kind detected

-- `validateMediaFile`, of the answers of `os.Stat` and `mimetype.DetectFile`.
unfoldable pub validate_media_file : Result ℤ → Text → Kind → ℤ → Result Text → Result (Unit {0})
unfolding is_in ext_from to_lower matches_kind
validate_media_file (err e) file_key kind max_bytes detected =
    err (wrap "worker: stat downloaded file" e)
validate_media_file (ok size) file_key kind max_bytes detected =
    check_size size file_key kind max_bytes detected
