-- ===== src/Prelude/Sets.antt =====
-- Sets of texts (`set[str]`, `frozenset[str]`) as lists without repetition. The order of a list is
-- one order in which the program may walk the set.
use mathlib.Core.Path.{◌≡◌, refl}
use mathlib.Core.Bool.{Bool, false, not, ◌&&◌, ◌||◌, true}
use mathlib.Core.List.{List, [], ◌∷◌, ◌++◌}
use native.Mathlib.Omega.{arith}
use Prim.Native.String.{String}
use text.Mathlib.Text.{◌==◌}
use text.Mathlib.TextEquality.{eq_iff}
use pr_auto_reviewer.Prelude.Tests.{if◌then◌else◌}

-- `k in s`
unfoldable pub contains : String → List String → Bool
contains k [] = false
contains k (j ∷ s) = j == k || contains k s

-- `s.add(k)`
unfoldable pub add : String → List String → List String
unfolding contains
add k s = if contains k s then s else k ∷ s

-- `s | frozenset(ks)`
unfoldable pub union : List String → List String → List String
unfolding add
union s [] = s
union s (k ∷ ks) = add k (union s ks)

-- `s - frozenset(ks)`
unfoldable pub difference : List String → List String → List String
unfolding contains
difference [] ks = []
difference (j ∷ s) ks = let rest = difference s ks in if contains j ks then rest else j ∷ rest

-- No element stands twice.
abbrev pub Distinct : List String → Type 0
Distinct [] = Unit
Distinct (k ∷ s) = (contains k s ≡ false) × Distinct s

pub contains-add : (j k : String) (s : List String) → contains j (add k s) ≡ k == j || contains j s
unfolding add
contains-add j k s = ground (arith, eq_iff k j)

pub contains-union :
    (j : String) (s ks : List String) → contains j (union s ks) ≡ contains j s || contains j ks
unfolding union
contains-union j s [] = ground arith
contains-union j s (k ∷ ks) = ground (arith, contains-add j k (union s ks), contains-union j s ks)

pub contains-difference :
    (j : String) (s ks : List String)
    → contains j (difference s ks) ≡ contains j s && not (contains j ks)
unfolding difference
contains-difference j [] ks = refl
contains-difference j (i ∷ s) ks = ground (arith, eq_iff i j, contains-difference j s ks)

pub contains-append :
    (j : String) (s ks : List String) → contains j (s ++ ks) ≡ contains j s || contains j ks
unfolding contains
contains-append j [] ks = refl
contains-append j (i ∷ s) ks = ground (arith, contains-append j s ks)

pub add-Distinct : (k : String) (s : List String) → Distinct s → Distinct (add k s)
unfolding add
add-Distinct k s d = ground arith

pub union-Distinct : (s ks : List String) → Distinct s → Distinct (union s ks)
unfolding union
union-Distinct s [] d = d
union-Distinct s (k ∷ ks) d = add-Distinct k (union s ks) (union-Distinct s ks d)

pub snoc-Distinct :
    (k : String) (s : List String) → Distinct s → contains k s ≡ false → Distinct (s ++ k ∷ [])
unfolding contains
snoc-Distinct k [] d h = (refl, tt)
snoc-Distinct k (j ∷ s) d h = (
  ground (arith, contains-append j s (k ∷ []), eq_iff j k, eq_iff k j),
  snoc-Distinct k s d.1 (ground arith),
)

pub append-Distinct :
    (a b : List String)
    → Distinct a
    → Distinct b
    → ((k : String) → contains k a ≡ true → contains k b ≡ false)
    → Distinct (a ++ b)
unfolding contains
append-Distinct [] b d d' apart = d'
append-Distinct (k ∷ a) b d d' apart = (
  ground (arith, contains-append k a b, apart k, eq_iff k k),
  append-Distinct a b d.1 d' (λ j h. apart j (ground arith)),
)

pub ruleset set_laws = (contains-add, contains-union, contains-difference, contains-append)
