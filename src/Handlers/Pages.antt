-- ===== src/Handlers/Pages.antt =====
-- `pagination` of internal/httpapi/handlers/job.go, with `strconv.Atoi`.
use learn_rag.Common.{
  ℕ, ◌+◌, ◌-◌, ◌*◌, ◌^◌, ◌≤◌, ◌≡◌, refl, ltb, leb, ◌==◌, Bool, true, false, ◌&&◌, Option, none,
  some, [], ◌∷◌, arith, if◌then◌else◌,
}
use learn_rag.Common.Int.{ℤ, pos, negsuc, sub_ℕ}
use learn_rag.Common.Text.{Text, is_empty}
use learn_rag.Errors.{api, err_invalid_request}
use learn_rag.Result.{Result, ok, err, ◌>>=◌}

-- The digits of a decimal number, before the range is checked.
unfoldable pub digits : ℕ → Text → Option ℕ
digits value [] = some value
digits value (c ∷ s) =
    let rest = digits (10 * value + (c - 48)) s in if leb 48 c && leb c 57 then rest else none

abbrev pub unsigned : Text → Option ℕ
unsigned [] = none
unsigned (c ∷ s) = digits 0 (c ∷ s)

abbrev pub in_range : Bool → Option ℕ → Option ℤ
in_range negative none = none
in_range true (some n) = if leb n (2 ^ 63) then some (sub_ℕ 0 n) else none
in_range false (some n) = if ltb n (2 ^ 63) then some (pos n) else none

-- `strconv.Atoi` on 64 bits: an optional sign and decimal digits.
unfoldable pub atoi : Text → Option ℤ
unfolding digits
atoi [] = none
atoi (c ∷ s) =
    if c == 43
    then in_range false (unsigned s)
    else if c == 45
    then in_range true (unsigned s)
    else in_range false (unsigned (c ∷ s))

abbrev pub at_least_one : Option ℤ → Result ℕ
at_least_one (some (pos n)) = if ltb n 1 then err (api err_invalid_request) else ok n
at_least_one (some (negsuc n)) = err (api err_invalid_request)
at_least_one none = err (api err_invalid_request)

abbrev pub current_page_default : ℕ
current_page_default = 1

abbrev pub list_limit_default : ℕ
list_limit_default = 10

abbrev pub list_limit_max : ℕ
list_limit_max = 100

abbrev pub page_param : Text → Result ℕ
page_param v = if is_empty v then ok current_page_default else at_least_one (atoi v)

abbrev pub capped : ℕ → ℕ
capped l = if ltb list_limit_max l then list_limit_max else l

abbrev pub limit_param : Text → Result ℕ
limit_param v =
    if is_empty v then ok list_limit_default else (at_least_one (atoi v) >>= λ l. ok (capped l))

abbrev pub paired : Result ℕ → Result ℕ → Result (ℕ × ℕ)
paired page_result limit_result = do page ← page_result; limit ← limit_result; ok (page, limit)

-- `pagination`, of the two query parameters.
unfoldable pub pagination : Text → Text → Result (ℕ × ℕ)
unfolding atoi
pagination page_query limit_query = paired (page_param page_query) (limit_param limit_query)

at_least_one-bounds : (o : Option ℤ) (n : ℕ) → at_least_one o ≡ ok n → 1 ≤ n
at_least_one-bounds (some (pos k)) n h = ground arith
at_least_one-bounds (some (negsuc k)) n h = cc
at_least_one-bounds none n h = cc

page_param-bounds : (v : Text) (n : ℕ) → page_param v ≡ ok n → 1 ≤ n
page_param-bounds [] n h = ground arith
page_param-bounds (c ∷ s) n h = at_least_one-bounds (atoi (c ∷ s)) n h

capped-bounds :
    (r : Result ℕ) (n : ℕ)
    → ((k : ℕ) → r ≡ ok k → 1 ≤ k)
    → (r >>= λ l. ok (capped l)) ≡ ok n
    → (1 ≤ n) × (n ≤ 100)
capped-bounds (ok k) n low h = let some_bound = low k refl in ground arith
capped-bounds (err e) n low h = cc

limit_param-bounds : (v : Text) (n : ℕ) → limit_param v ≡ ok n → (1 ≤ n) × (n ≤ 100)
limit_param-bounds [] n h = ground arith
limit_param-bounds (c ∷ s) n h =
    capped-bounds (at_least_one (atoi (c ∷ s))) n (at_least_one-bounds (atoi (c ∷ s))) h

paired-bounds :
    (p l : Result ℕ) (page limit : ℕ)
    → ((n : ℕ) → p ≡ ok n → 1 ≤ n)
    → ((n : ℕ) → l ≡ ok n → (1 ≤ n) × (n ≤ 100))
    → paired p l ≡ ok (page, limit)
    → (1 ≤ page) × (1 ≤ limit) × (limit ≤ 100)
paired-bounds (ok p) (ok l) page limit low both h =
    let a = low p refl in let b = both l refl in ground arith
paired-bounds (ok p) (err e) page limit low both h = cc
paired-bounds (err e) l page limit low both h = cc

-- Whatever the query parameters are, the page that `pagination` accepts is at least 1 and the limit between 1
-- and 100.
pub pagination-bounds :
    (page_query limit_query : Text) (page limit : ℕ)
    → pagination page_query limit_query ≡ ok (page, limit)
    → (1 ≤ page) × (1 ≤ limit) × (limit ≤ 100)
unfolding pagination
pagination-bounds page_query limit_query page limit h =
    paired-bounds (page_param page_query) (limit_param limit_query) page limit
      (page_param-bounds page_query) (limit_param-bounds limit_query) h
