-- ===== src/Base/Dict.antt =====
-- Go's `map[string]V` as an association list in the order of iteration.
use Prim.Native.Nat.{suc, ◌≤◌}
use minti.Base.Lists.{length}
use Prim.Native.String.{String}
use mathlib.Core.Path.{◌≡◌, refl}
use mathlib.Core.List.{List, [], ◌∷◌}
use mathlib.Core.Option.{Option, none, some}
use native.Mathlib.Omega.{arith}
use text.Mathlib.Text.{◌==◌}
use text.Mathlib.TextEquality.{eq_iff}
use minti.Base.Tests.{if◌then◌else◌, is_some}

module _ {ℓ} {Value : Type ℓ} where
  -- A missing key gives none.
  unfoldable pub lookup : (key : String) → List (String × Value) → Option Value
  lookup key [] = none
  lookup key ((here, found) ∷ rest) = if here == key then some found else lookup key rest

  unfoldable pub delete : (key : String) → List (String × Value) → List (String × Value)
  delete key [] = []
  delete key ((here, old) ∷ rest) =
      let left = delete key rest in if here == key then left else (here, old) ∷ left

  -- An entry that is there is overwritten in its place.
  unfoldable pub insert :
      (key : String) (new : Value) → List (String × Value) → List (String × Value)
  insert key new [] = (key, new) ∷ []
  insert key new ((here, old) ∷ rest) =
      if here == key then (key, new) ∷ rest else (here, old) ∷ insert key new rest

  pub length-delete-le :
      (key : String) (dict : List (String × Value)) → length (delete key dict) ≤ length dict
  unfolding delete
  length-delete-le key [] = omega arith
  length-delete-le key ((here, old) ∷ rest) = ground (arith, length-delete-le key rest)

  pub length-insert :
      (key : String) (new : Value) (dict : List (String × Value))
      → length (insert key new dict)
        ≡ (if is_some (lookup key dict) then length dict else suc (length dict))
  unfolding lookup insert
  length-insert key new [] = refl
  length-insert key new ((here, old) ∷ rest) = ground (arith, length-insert key new rest)

  pub lookup-delete :
      (key asked : String) (dict : List (String × Value))
      → lookup asked (delete key dict) ≡ (if key == asked then none else lookup asked dict)
  unfolding lookup delete
  lookup-delete key asked [] = ground arith
  lookup-delete key asked ((here, old) ∷ rest) =
      ground
        (arith, lookup-delete key asked rest, eq_iff here asked, eq_iff here key, eq_iff key asked)

  pub lookup-insert :
      (key asked : String) (new : Value) (dict : List (String × Value))
      → lookup asked (insert key new dict) ≡ (if key == asked then some new else lookup asked dict)
  unfolding lookup insert
  lookup-insert key asked new [] = refl
  lookup-insert key asked new ((here, old) ∷ rest) = ground (
    arith,
    lookup-insert key asked new rest,
    eq_iff here asked,
    eq_iff here key,
    eq_iff key asked,
  )
