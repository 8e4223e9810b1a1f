-- ===== src/Database/Rows.antt =====
-- Laws of the statements' shapes.
use mathlib.Core.List.{reverse, reverse_aux, Memᴰ}
use mathlib.Core.List.Memᴰ.{head, tail, not-nil}
use learn_rag.Common.{
  ◌≤◌, ◌<◌, refl, if◌then◌else◌, false, ℕ, zero, suc, All, take, drop, leb, ◌≡◌, Bool, true, ◌&&◌,
  none, some, List, [], ◌∷◌, arith, Bool-cases, inl, inr,
}
use learn_rag.Database.Table.{
  select_one, update, select_all, delete, insert_by, order_by, count_rows,
}

-- The row that a selection finds passes its test.
pub select_one-passes :
    {R : Type 0} (test : R → Bool) (rows : List R) {r : R}
    → select_one test rows ≡ some r
    → test r ≡ true
unfolding select_one
select_one-passes test [] h = cc
select_one-passes test (x ∷ rows) {r} h = elim (Bool-cases (test x)) [
  | inl hit ↦ ground arith
  | inr miss ↦
      let further : select_one test rows ≡ some r = ground arith in
      select_one-passes test rows further
]

-- A row that an update reaches is found again, changed.
pub select_one-update :
    {R : Type 0} (test guard : R → Bool) (change : R → R) (rows : List R) {r : R}
    → ((r : R) → test (change r) ≡ test r)
    → select_one test rows ≡ some r
    → guard r ≡ true
    → select_one test (update (λ r. test r && guard r) change rows) ≡ some (change r)
unfolding select_one update
select_one-update test guard change (x ∷ rows) {r} same h g = elim (Bool-cases (test x)) [
  | inl hit ↦ let e = same x in ground arith
  | inr miss ↦
      let further : select_one test rows ≡ some r = ground arith in
      let rest = select_one-update test guard change rows same further g in ground arith
]
select_one-update test guard change [] same h g = cc

-- An update of the rows that a selection looks for changes the row that it finds.
pub select_one-update_own :
    {R : Type 0} (test : R → Bool) (change : R → R) (rows : List R) {r : R}
    → ((r : R) → test (change r) ≡ test r)
    → select_one test rows ≡ some r
    → select_one test (update test change rows) ≡ some (change r)
unfolding select_one update
select_one-update_own test change [] same h = cc
select_one-update_own test change (x ∷ rows) {r} same h = elim (Bool-cases (test x)) [
  | inl hit ↦ let e = same x in ground arith
  | inr miss ↦
      let further : select_one test rows ≡ some r = ground arith in
      let rest = select_one-update_own test change rows same further in ground arith
]

-- An update to rows that a selection does not look for leaves it none.
pub select_one-update_gone :
    {R : Type 0} (test : R → Bool) (change : R → R) (rows : List R)
    → ((r : R) → test (change r) ≡ false)
    → select_one test (update test change rows) ≡ none
unfolding select_one update
select_one-update_gone test change [] out = refl
select_one-update_gone test change (x ∷ rows) out =
    let rest = select_one-update_gone test change rows out in
    let e = out x in elim (Bool-cases (test x)) [ inl hit ↦ ground arith | inr miss ↦ ground arith ]

-- What a deletion leaves does not pass its test.
pub All-delete :
    {R : Type 0} (test : R → Bool) (rows : List R) → All (λ r. test r ≡ false) (delete test rows)
unfolding delete
All-delete test [] = tt
All-delete test (x ∷ rows) = by_test (All-delete test rows) (test x) refl
  where
    by_test :
        All (λ r. test r ≡ false) (delete test rows)
        → (b : Bool) → test x ≡ b
        → All (λ r. test r ≡ false) (if b then delete test rows else x ∷ delete test rows)
    by_test rest true e = rest
    by_test rest false e = (e, rest)

-- A narrower test that the row passes finds the same row.
pub select_one-narrower :
    {R : Type 0} (test narrow : R → Bool) (rows : List R) {r : R}
    → ((s : R) → narrow s ≡ true → test s ≡ true)
    → select_one test rows ≡ some r
    → narrow r ≡ true
    → select_one narrow rows ≡ some r
unfolding select_one
select_one-narrower test narrow [] implies h n = cc
select_one-narrower test narrow (x ∷ rows) {r} implies h n = elim (Bool-cases (test x)) [
  | inl hit ↦ ground arith
  | inr miss ↦
      let further : select_one test rows ≡ some r = ground arith in
      let rest = select_one-narrower test narrow rows implies further n in
      let outside = implies x in ground arith
]

-- Rows outside of a selection are not reached by an update of it.
pub select_all-update_other :
    {R : Type 0} (other test : R → Bool) (change : R → R) (rows : List R)
    → ((r : R) → test r ≡ true → other r ≡ false)
    → ((r : R) → test r ≡ true → other (change r) ≡ false)
    → select_all other (update test change rows) ≡ select_all other rows
unfolding select_all update
select_all-update_other other test change [] outside after = refl
select_all-update_other other test change (x ∷ rows) outside after =
    let rest = select_all-update_other other test change rows outside after in
    elim (Bool-cases (test x)) [
      | inl hit ↦ let a = outside x hit in let b = after x hit in ground arith
      | inr miss ↦ ground arith
    ]

-- An update of rows to ones outside of a selection selects no more rows, and fewer if it reaches a selected one.
pub count-update_le :
    {R : Type 0} (chosen test : R → Bool) (change : R → R) (rows : List R)
    → ((r : R) → chosen (change r) ≡ false)
    → count_rows (select_all chosen (update test change rows)) ≤ count_rows (select_all chosen rows)
unfolding select_all update count_rows
count-update_le chosen test change [] out = omega arith
count-update_le chosen test change (x ∷ rows) out =
    let rest = count-update_le chosen test change rows out in let e = out x in ground arith

pub count-update_lt :
    {R : Type 0} (chosen test : R → Bool) (change : R → R) (rows : List R) {r : R}
    → ((r : R) → chosen (change r) ≡ false)
    → Memᴰ r rows
    → chosen r ≡ true
    → test r ≡ true
    → count_rows (select_all chosen (update test change rows)) < count_rows (select_all chosen rows)
unfolding select_all update count_rows
count-update_lt chosen test change [] out m c t = absurd (not-nil m)
count-update_lt chosen test change (x ∷ rows) out (head same) c t =
    let rest = count-update_le chosen test change rows out in
    let e = out x in
    let c' : chosen x ≡ true = rw (← same) c in
    let t' : test x ≡ true = rw (← same) t in ground arith
count-update_lt chosen test change (x ∷ rows) out (tail m) c t =
    let rest = count-update_lt chosen test change rows out m c t in let e = out x in ground arith

module _ {R : Type 0} (P : R → Type 0) where
  -- What is selected passes the test.
  pub All-select_all :
      (test : R → Bool) (rows : List R)
      → ((r : R) → test r ≡ true → P r)
      → All P (select_all test rows)
  unfolding select_all
  All-select_all test [] passes = tt
  All-select_all test (r ∷ rows) passes = by_test (All-select_all test rows passes) (test r) refl
    where
      by_test :
          All P (select_all test rows)
          → (b : Bool) → test r ≡ b
          → All P (if b then r ∷ select_all test rows else select_all test rows)
      by_test later true e = (passes r e, later)
      by_test later false e = later

  All-insert_by :
      (key : R → ℕ) (r : R) (rows : List R) → P r → All P rows → All P (insert_by key r rows)
  unfolding insert_by
  All-insert_by key r [] p all = (p, tt)
  All-insert_by key r (s ∷ rows) p (q, all) =
      by_key (All-insert_by key r rows p all) (leb (key r) (key s))
    where
      by_key :
          All P (insert_by key r rows)
          → (b : Bool) → All P (if b then r ∷ s ∷ rows else s ∷ insert_by key r rows)
      by_key later true = (p, (q, all))
      by_key later false = (q, later)

  pub All-order_by : (key : R → ℕ) (rows : List R) → All P rows → All P (order_by key rows)
  unfolding order_by
  All-order_by key [] all = tt
  All-order_by key (r ∷ rows) (p, all) =
      All-insert_by key r (order_by key rows) p (All-order_by key rows all)

  All-reverse_aux : (xs acc : List R) → All P xs → All P acc → All P (reverse_aux xs acc)
  All-reverse_aux [] acc all p = p
  All-reverse_aux (x ∷ xs) acc (q, all) p = All-reverse_aux xs (x ∷ acc) all (q, p)

  pub All-reverse : (xs : List R) → All P xs → All P (reverse xs)
  All-reverse xs all = All-reverse_aux xs [] all tt

  pub All-take : (n : ℕ) (xs : List R) → All P xs → All P (take n xs)
  All-take zero xs all = tt
  All-take (suc n) [] all = tt
  All-take (suc n) (x ∷ xs) (p, all) = (p, All-take n xs all)

  pub All-drop : (n : ℕ) (xs : List R) → All P xs → All P (drop n xs)
  All-drop zero xs all = all
  All-drop (suc n) [] all = tt
  All-drop (suc n) (x ∷ xs) (_, all) = All-drop n xs all
