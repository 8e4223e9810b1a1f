-- ===== src/Database/Table.antt =====
-- The shapes that the SQL statements share, over a table as a list of rows.
use learn_rag.Common.{
  ℕ, suc, Bool, true, false, Option, none, some, List, [], ◌∷◌, if◌then◌else◌, leb,
}

module _ {R : Type 0} where
  -- `SELECT … WHERE test`, for `:one`: the first row.
  unfoldable pub select_one : (R → Bool) → List R → Option R
  select_one test [] = none
  select_one test (r ∷ rows) = let later = select_one test rows in if test r then some r else later

  -- `SELECT … WHERE test`.
  unfoldable pub select_all : (R → Bool) → List R → List R
  select_all test [] = []
  select_all test (r ∷ rows) =
      let later = select_all test rows in if test r then r ∷ later else later

  -- `UPDATE … SET change WHERE test`.
  unfoldable pub update : (R → Bool) → (R → R) → List R → List R
  update test change [] = []
  update test change (r ∷ rows) = (if test r then change r else r) ∷ update test change rows

  -- `DELETE … WHERE test`.
  unfoldable pub delete : (R → Bool) → List R → List R
  delete test [] = []
  delete test (r ∷ rows) = let later = delete test rows in if test r then later else r ∷ later

  unfoldable pub exists : (R → Bool) → List R → Bool
  exists test [] = false
  exists test (r ∷ rows) = let later = exists test rows in if test r then true else later

  unfoldable pub insert_by : (R → ℕ) → R → List R → List R
  insert_by key r [] = r ∷ []
  insert_by key r (s ∷ rows) =
      let later = s ∷ insert_by key r rows in if leb (key r) (key s) then r ∷ s ∷ rows else later

  -- `ORDER BY key ASC`; rows with equal keys keep their order.
  unfoldable pub order_by : (R → ℕ) → List R → List R
  unfolding insert_by
  order_by key [] = []
  order_by key (r ∷ rows) = insert_by key r (order_by key rows)

  abbrev pub earlier : (R → ℕ) → R → Option R → Option R
  earlier key r none = some r
  earlier key r (some s) = if leb (key r) (key s) then some r else some s

  -- `ORDER BY key ASC LIMIT 1`.
  unfoldable pub first_by : (R → ℕ) → List R → Option R
  first_by key [] = none
  first_by key (r ∷ rows) = earlier key r (first_by key rows)

unfoldable pub count_rows {ℓ} : {R : Type ℓ} → List R → ℕ
count_rows [] = 0
count_rows (r ∷ rows) = suc (count_rows rows)
