-- ===== src/Database/Membership.antt =====
-- Which rows a selection, a deletion and an existence test are about.
use mathlib.Core.List.{Memᴰ}
use mathlib.Core.List.Memᴰ.{head, tail, not-nil}
use learn_rag.Common.{◌≡◌, ◌↔◌, refl, Bool, true, false, List, [], ◌∷◌, if◌then◌else◌}
use learn_rag.Database.Table.{select_all, delete, exists}

-- A test that decides a predicate fails exactly where the predicate does.
pub fails_iff : {P : Type 0} (b : Bool) → ((b ≡ true) ↔ P) → (b ≡ false) ↔ (¬ P)
fails_iff true holds = (λ h. absurd cc, λ not_p. absurd (not_p (holds.0 refl)))
fails_iff false holds = (λ h p. absurd (clash (holds.1 p)), λ not_p. refl)
  where
    clash : false ≡ true → ⊥
    clash h = cc

module _ {R : Type 0} (test : R → Bool) where
  -- The rows that a deletion leaves.
  pub delete_Mem :
      (rows : List R) {r : R} → Memᴰ r (delete test rows) → Memᴰ r rows × (test r ≡ false)
  unfolding delete
  delete_Mem [] m = absurd (not-nil m)
  delete_Mem (x ∷ rows) {r} m = by_test (λ m. delete_Mem rows m) (test x) refl m
    where
      by_test :
          (Memᴰ r (delete test rows) → Memᴰ r rows × (test r ≡ false))
          → (b : Bool) → test x ≡ b
          → Memᴰ r (if b then delete test rows else x ∷ delete test rows)
          → Memᴰ r (x ∷ rows) × (test r ≡ false)
      by_test below true e m = let (in_rows, fails) = below m in (tail in_rows, fails)
      by_test below false e (head same) = (head same, rw same e)
      by_test below false e (tail m) = let (in_rows, fails) = below m in (tail in_rows, fails)

  pub Mem_delete :
      (rows : List R) {r : R} → Memᴰ r rows → test r ≡ false → Memᴰ r (delete test rows)
  unfolding delete
  Mem_delete [] m fails = absurd (not-nil m)
  Mem_delete (x ∷ rows) {r} (head same) fails =
      let out : test x ≡ false = rw (← same) fails in rw out (head same)
  Mem_delete (x ∷ rows) {r} (tail m) fails = by_test (Mem_delete rows m fails) (test x)
    where
      by_test :
          Memᴰ r (delete test rows)
          → (b : Bool) → Memᴰ r (if b then delete test rows else x ∷ delete test rows)
      by_test later true = later
      by_test later false = tail later

  pub Mem_select_all :
      (rows : List R) {r : R} → Memᴰ r rows → test r ≡ true → Memᴰ r (select_all test rows)
  unfolding select_all
  Mem_select_all [] m passes = absurd (not-nil m)
  Mem_select_all (x ∷ rows) {r} (head same) passes =
      let taken : test x ≡ true = rw (← same) passes in rw taken (head same)
  Mem_select_all (x ∷ rows) {r} (tail m) passes = by_test (Mem_select_all rows m passes) (test x)
    where
      by_test :
          Memᴰ r (select_all test rows)
          → (b : Bool) → Memᴰ r (if b then x ∷ select_all test rows else select_all test rows)
      by_test later true = tail later
      by_test later false = later

  pub exists_Mem :
      (rows : List R) → exists test rows ≡ true → (r : R) × Memᴰ r rows × (test r ≡ true)
  unfolding exists
  exists_Mem [] h = absurd cc
  exists_Mem (x ∷ rows) h = by_test (λ h. exists_Mem rows h) (test x) refl h
    where
      by_test :
          (exists test rows ≡ true → (r : R) × Memᴰ r rows × (test r ≡ true))
          → (b : Bool) → test x ≡ b
          → (if b then true else exists test rows) ≡ true
          → (r : R) × Memᴰ r (x ∷ rows) × (test r ≡ true)
      by_test below true e h = (x, head refl, e)
      by_test below false e h = let (r, m, passes) = below h in (r, tail m, passes)

  pub Mem_exists : (rows : List R) {r : R} → Memᴰ r rows → test r ≡ true → exists test rows ≡ true
  unfolding exists
  Mem_exists [] m passes = absurd (not-nil m)
  Mem_exists (x ∷ rows) (head same) passes =
      let hit : test x ≡ true = rw (← same) passes in rw hit refl
  Mem_exists (x ∷ rows) (tail m) passes =
      let later = Mem_exists rows m passes in by_test (test x) later
    where
      by_test : (b : Bool) → exists test rows ≡ true → (if b then true else exists test rows) ≡ true
      by_test true later = refl
      by_test false later = later
