-- ===== src/Prelude/Dict.antt =====
-- Dictionaries with text keys (`dict[str, V]`) as association lists in insertion order.
use mathlib.Core.Path.{◌≡◌, refl}
use mathlib.Core.Option.{Option, none, some}
use mathlib.Core.List.{List, [], ◌∷◌}
use native.Mathlib.Omega.{arith}
use Prim.Native.String.{String}
use text.Mathlib.Text.{◌==◌}
use text.Mathlib.TextEquality.{eq_iff}
use pr_auto_reviewer.Prelude.Tests.{if◌then◌else◌}

module _ {ℓ} {V : Type ℓ} where
  -- `entries.get(key)`
  unfoldable pub lookup : (key : String) (entries : List (String × V)) → Option V
  lookup key [] = none
  lookup key (entry ∷ entries) = if entry.0 == key then some entry.1 else lookup key entries

  -- `entries[key] = value`: a key keeps the place of its first insertion
  unfoldable pub insert : (key : String) (value : V) → List (String × V) → List (String × V)
  insert key value [] = (key, value) ∷ []
  insert key value (entry ∷ entries) =
      if entry.0 == key then (entry.0, value) ∷ entries else entry ∷ insert key value entries

  pub lookup-insert :
      (wanted key : String) (value : V) (entries : List (String × V))
      → lookup wanted (insert key value entries)
        ≡ (if key == wanted then some value else lookup wanted entries)
  unfolding lookup insert
  lookup-insert wanted key value [] = refl
  lookup-insert wanted key value (entry ∷ entries) = ground (
    arith,
    eq_iff key wanted,
    eq_iff entry.0 key,
    eq_iff entry.0 wanted,
    lookup-insert wanted key value entries,
  )
