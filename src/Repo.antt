-- ===== src/Repo.antt =====
-- internal/database/repo: the repositories, which put the statements into tenant transactions and
-- translate a missing row into "not found".
pub mod Jobs
pub mod Segments
pub mod Videos
pub mod Contents
pub mod Keys
pub mod Intents
pub mod JobsKept
pub mod Moves
pub mod Search
pub mod Cleanup
pub mod Loading
pub mod Lifecycle
pub mod Claim
pub mod Offset
mod Examples
use learn_rag.Common.{
  ℕ, ◌-◌, ◌*◌, ◌%◌, ◌^◌, if◌then◌else◌, ltb, String, Bool, true, false, Option, none, some,
}
use learn_rag.Common.Int.{ℤ, pos, sub_ℕ}
use learn_rag.Errors.{Err, api, is_no_rows, err_not_found}
use text.Mathlib.Text.{◌==◌ as str_eq}

-- `if errors.Is(err, pgx.ErrNoRows) { return fallbackErr }; return err`.
unfoldable pub map_no_rows : Err → Err → Err
unfolding is_no_rows
map_no_rows fallback e = if is_no_rows e then fallback else e

-- `optionalText`: an empty text is no filter.
abbrev pub optional_text : String → Option String
optional_text s = if str_eq s "" then none else some s

-- `int32(n)` for an n that is not negative: the low 32 bits, read with a sign.
unfoldable pub to_int32 : ℕ → ℤ
to_int32 n = let low = n % 2 ^ 32 in if ltb low (2 ^ 31) then pos low else sub_ℕ low (2 ^ 32)

-- `int32((page - 1) * limit)`, for a page from 1.
unfoldable pub list_offset : ℕ → ℕ → ℤ
unfolding to_int32
list_offset page limit = to_int32 ((page - 1) * limit)
