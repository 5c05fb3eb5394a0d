-- ===== src/Prelude/Maps.antt =====
-- Go's `map[string]V` as an association list. The order of the list stands for the order in which
-- a `range` loop meets the keys.
use Prim.Native.String.{String}
use mathlib.Core.Path.{◌≡◌, refl}
use mathlib.Core.Bool.{Bool, true, false}
use mathlib.Core.Option.{Option, none, some}
use mathlib.Core.List.{List, [], ◌∷◌}
use native.Mathlib.Omega.{arith}
use text.Mathlib.TextEquality.{eq_iff}
use kudo.Prelude.Tests.{◌==◌, if◌then◌else◌}

module _ {ℓ} {V : Type ℓ} where
  unfoldable pub lookup : String → List (String × V) → Option V
  lookup key [] = none
  lookup key ((other, val) ∷ rest) = if other == key then some val else lookup key rest

  unfoldable pub insert : String → V → List (String × V) → List (String × V)
  insert key val [] = (key, val) ∷ []
  insert key val ((other, old) ∷ rest) =
      if other == key then (key, val) ∷ rest else (other, old) ∷ insert key val rest

  unfoldable pub delete : String → List (String × V) → List (String × V)
  delete key [] = []
  delete key ((other, old) ∷ rest) =
      if other == key then delete key rest else (other, old) ∷ delete key rest

  unfoldable pub has_key : String → List (String × V) → Bool
  has_key key [] = false
  has_key key ((other, val) ∷ rest) = if other == key then true else has_key key rest

  pub lookup-insert :
      (key other : String) (val : V) (rest : List (String × V))
      → lookup other (insert key val rest) ≡ (if key == other then some val else lookup other rest)
  unfolding lookup insert
  lookup-insert key other val [] = refl
  lookup-insert key other val ((first, old) ∷ rest) = ground (
    arith,
    eq_iff key other,
    eq_iff first key,
    eq_iff first other,
    lookup-insert key other val rest,
  )

  pub lookup-delete :
      (key other : String) (rest : List (String × V))
      → lookup other (delete key rest) ≡ (if key == other then none else lookup other rest)
  unfolding lookup delete
  lookup-delete key other [] = ground arith
  lookup-delete key other ((first, old) ∷ rest) =
      ground (
        arith,
        eq_iff key other,
        eq_iff first key,
        eq_iff first other,
        lookup-delete key other rest,
      )

  pub has_key-lookup :
      (key : String) (rest : List (String × V)) → has_key key rest ≡ false → lookup key rest ≡ none
  unfolding lookup has_key
  has_key-lookup key [] h = refl
  has_key-lookup key ((other, val) ∷ rest) h = ground (arith, has_key-lookup key rest)

  pub lookup-has_key :
      (key : String) (rest : List (String × V)) (val : V)
      → lookup key rest ≡ some val
      → has_key key rest ≡ true
  unfolding lookup has_key
  lookup-has_key key [] val h = cc
  lookup-has_key key ((other, old) ∷ rest) val h = ground (arith, lookup-has_key key rest val)

  pub has_key-insert :
      (key other : String) (val : V) (rest : List (String × V))
      → has_key other (insert key val rest) ≡ (if key == other then true else has_key other rest)
  unfolding has_key insert
  has_key-insert key other val [] = refl
  has_key-insert key other val ((one, old) ∷ rest) =
      ground (
        arith,
        eq_iff key other,
        eq_iff one key,
        eq_iff one other,
        has_key-insert key other val rest,
      )
