-- ===== src/Examples/Generator.antt =====
-- A generator of IDs for the examples: a text that is longer than every reserved one.
use pr_auto_reviewer.Prelude.{
  ℕ, suc, ◌+◌, ◌≤◌, String, true, false, List, [], ◌∷◌, ◌≡◌, refl, ap, arith, eq_iff, ◌==◌,
  Bool-cases, inl, inr,
}
use pr_auto_reviewer.Prelude.Sets.{contains}
use pr_auto_reviewer.Prelude.Text.{truthy}
use pr_auto_reviewer.Prelude.Words.{append}

abbrev len : String → ℕ
len String.[] = 0
len (String.◌∷◌ c s) = suc (len s)

abbrev total : List String → ℕ
total [] = 0
total (s ∷ ss) = len s + total ss

unfoldable pub longer : List String → String
unfolding append
longer [] = "x"
longer (s ∷ ss) = append s (longer ss)

len-append : (a b : String) → len (append a b) ≡ len a + len b
unfolding append
len-append String.[] b = omega arith
len-append (String.◌∷◌ c a) b = omega (arith, len-append a b)

len-longer : (ss : List String) → len (longer ss) ≡ suc (total ss)
unfolding longer
len-longer [] = refl
len-longer (s ∷ ss) = omega (arith, len-append s (longer ss), len-longer ss)

contains-len : (t : String) (ss : List String) → contains t ss ≡ true → len t ≤ total ss
unfolding contains
contains-len t [] h = ground (arith, h)
contains-len t (s ∷ ss) h = elim (Bool-cases (s == t)) [
  | inl same ↦ omega (arith, ap len ((eq_iff s t).0 same))
  | inr other ↦ omega (arith, contains-len t ss (ground (arith, h, other)))
]

longer-truthy_of : (t : String) (n : ℕ) → len t ≡ suc n → truthy t ≡ true
longer-truthy_of String.[] n h = ground (arith, h)
longer-truthy_of (String.◌∷◌ c s) n h = refl

pub longer_lem :
    (ss : List String) → (truthy (longer ss) ≡ true) × (contains (longer ss) ss ≡ false)
longer_lem ss = (
  longer-truthy_of (longer ss) (total ss) (len-longer ss),
  elim (Bool-cases (contains (longer ss) ss)) [
    | inl taken ↦ ground (arith, taken, contains-len (longer ss) ss taken, len-longer ss)
    | inr free ↦ free
  ],
)
