-- ===== src/Prelude/Key.antt =====
-- Equality of texts, and dictionaries keyed by them in insertion order: Python's `dict`.
use Prim.Native.String.{String}
use mathlib.Core.Path.{◌≡◌, refl}
use mathlib.Core.Bool.{Bool, false, ◌||◌}
use mathlib.Core.Option.{Option, none, some}
use mathlib.Core.List.{List, [], ◌∷◌}
use native.Mathlib.Omega.{arith}
use text.Mathlib.Text.{◌==◌}
pub use text.Mathlib.TextEquality.{eq_iff}
pub use text.Mathlib.TextPositions.{eq_refl}
use ansuman_gpu_inference_se.Prelude.Tests.{if◌then◌else◌}

infix 50 ◌=?◌
abbrev pub ◌=?◌ : String → String → Bool
s =? t = s == t

-- `x in xs`
abbrev pub contains : String → List String → Bool
contains k [] = false
contains k (j ∷ js) = j =? k || contains k js

module _ {ℓ} {V : Type ℓ} where
  -- `d.get(key)`
  unfoldable pub lookup : String → List (String × V) → Option V
  lookup key [] = none
  lookup key ((name, item) ∷ dict) = if name =? key then some item else lookup key dict

  -- `d[key] = value`
  unfoldable pub insert : String → V → List (String × V) → List (String × V)
  insert key value [] = (key, value) ∷ []
  insert key value ((name, item) ∷ dict) =
      if name =? key then (name, value) ∷ dict else (name, item) ∷ insert key value dict

  -- `d.pop(key, None)`
  unfoldable pub remove : String → List (String × V) → List (String × V)
  remove key [] = []
  remove key ((name, item) ∷ dict) =
      let rest = remove key dict in if name =? key then rest else (name, item) ∷ rest

  pub lookup-insert :
      (key other : String) (value : V) (dict : List (String × V))
      → lookup other (insert key value dict)
        ≡ (if key =? other then some value else lookup other dict)
  unfolding lookup insert
  lookup-insert key other value [] = refl
  lookup-insert key other value ((name, item) ∷ dict) = ground (
    arith,
    lookup-insert key other value dict,
    eq_iff name key,
    eq_iff name other,
    eq_iff key other,
  )

  pub lookup-remove :
      (key other : String) (dict : List (String × V))
      → lookup other (remove key dict) ≡ (if key =? other then none else lookup other dict)
  unfolding lookup remove
  lookup-remove key other [] = ground arith
  lookup-remove key other ((name, item) ∷ dict) =
      ground
        (arith, lookup-remove key other dict, eq_iff name key, eq_iff name other, eq_iff key other)

pub ruleset dict_laws = (lookup-insert, lookup-remove)
