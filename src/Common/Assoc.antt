-- ===== src/Common/Assoc.antt =====
-- A Go map with string keys, as an association list.
use Prim.Native.String.{String}
use mathlib.Core.Path.{◌≡◌, refl}
use mathlib.Core.Option.{Option, none, some}
use mathlib.Core.List.{List, [], ◌∷◌}
use native.Mathlib.Omega.{arith}
use text.Mathlib.Text.{◌==◌}
use text.Mathlib.TextEquality.{eq_iff}
use learn_rag.Common.Tests.{if◌then◌else◌}

module _ {ℓ} {A : Type ℓ} where
  -- `m[key]`.
  unfoldable pub lookup : String → List (String × A) → Option A
  lookup key ((name, value) ∷ more) =
      let later = lookup key more in if name == key then some value else later
  lookup key [] = none

  -- `m[key] = value`.
  unfoldable pub insert : String → A → List (String × A) → List (String × A)
  insert key value ((name, old) ∷ more) =
      let later = insert key value more in
      if name == key then (key, value) ∷ more else (name, old) ∷ later
  insert key value [] = (key, value) ∷ []

  -- What a write leaves to be read, under its own key and under any other.
  pub lookup-insert :
      (written key : String) (value : A) (entries : List (String × A))
      → let after = insert written value entries in
        lookup key after ≡ (if written == key then some value else lookup key entries)
  unfolding insert lookup
  lookup-insert written key value ((name, old) ∷ more) = ground (
    arith,
    lookup-insert written key value more,
    eq_iff name key,
    eq_iff name written,
    eq_iff written key,
  )
  lookup-insert written key value [] = refl
