-- ===== src/Repo/Offset.antt =====
-- The offset that `List` of internal/database/repo/jobs.go and videos.go computes for a page.
use native.Mathlib.Nat.{mul-le-mul}
use learn_rag.Common.{ℕ, ◌+◌, ◌-◌, ◌*◌, ◌%◌, ◌≤◌, ◌<◌, ◌≡◌, refl, arith}
use learn_rag.Common.Int.{pos}
use learn_rag.Repo.{to_int32, list_offset}

to_int32-exact : (n : ℕ) → n < 2147483648 → to_int32 n ≡ pos n
unfolding to_int32
to_int32-exact n h = let low : n % 4294967296 ≡ n = omega arith in ground arith

page_product : (page limit : ℕ) → page ≤ 21474837 → limit ≤ 100 → (page - 1) * limit < 2147483648
page_product page limit p l =
    let below =
      mul-le-mul {n₁ = page - 1} {m₁ = limit} {n₂ = 21474836} {m₂ = 100} (omega arith) l in
    omega arith

-- Up to page 21474837 the offset is the number of rows before the page, for any limit that is accepted.
pub list_offset_exact :
    (page limit : ℕ)
    → page ≤ 21474837
    → limit ≤ 100
    → list_offset page limit ≡ pos ((page - 1) * limit)
unfolding list_offset
list_offset_exact page limit p l = to_int32-exact ((page - 1) * limit) (page_product page limit p l)

to_int32-period : (n k : ℕ) → to_int32 (n + 4294967296 * k) ≡ to_int32 n
unfolding to_int32
to_int32-period n k =
    let low : (n + 4294967296 * k) % 4294967296 ≡ n % 4294967296 = omega arith in rw low refl

-- The offset is computed in 32 bits: 2^32 pages on, every page is the same page again.
pub list_offset_wraps :
    (page limit : ℕ) → 1 ≤ page → list_offset (page + 4294967296) limit ≡ list_offset page limit
unfolding list_offset
list_offset_wraps page limit p =
    let same : (page + 4294967296 - 1) * limit ≡ (page - 1) * limit + 4294967296 * limit =
      let split : page + 4294967296 - 1 ≡ (page - 1) + 4294967296 = omega arith in
      rw split (omega arith) in
    rw same (to_int32-period ((page - 1) * limit) limit)
