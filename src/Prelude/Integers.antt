-- ===== src/Prelude/Integers.antt =====
-- Texts cut at a character, and the integers that they spell. The digits are those of ASCII.
use Prim.Native.Nat.{ℕ, zero, suc, ◌+◌, ◌-◌, ◌*◌}
use Prim.Native.Char.{Char, code}
use Prim.Native.String.{String}
use mathlib.Core.Bool.{Bool, true, false, ◌&&◌, ◌||◌}
use mathlib.Core.Option.{Option, none, some}
use mathlib.Core.List.{List, [], ◌∷◌}
use pr_auto_reviewer.Prelude.Tests.{if◌then◌else◌, leb, nat_eq}
use pr_auto_reviewer.Prelude.Text.{strip}

-- `n` is `pos n`, and `negsuc n` is -(n + 1).
pub data ℤ : Type 0 where
  pos negsuc : ℕ → ℤ

-- the first piece of the text grows by a character
grow : Char → List String → List String
grow c [] = String.◌∷◌ c "" ∷ []
grow c (piece ∷ pieces) = String.◌∷◌ c piece ∷ pieces

-- `s.split(sep)` for one character `sep`, given by its code
unfoldable pub split : ℕ → String → List String
unfolding grow
split sep String.[] = "" ∷ []
split sep (String.◌∷◌ c s) =
    let rest = split sep s in if nat_eq (code c) sep then "" ∷ rest else grow c rest

-- `before, _, after = s.partition(sep)`; `none` where `sep` is not in `s`
unfoldable pub partition : ℕ → String → Option (String × String)
partition sep String.[] = none
partition sep (String.◌∷◌ c s) =
    let rest = partition sep s in if nat_eq (code c) sep then some ("", s) else behind c rest
  where
    behind : Char → Option (String × String) → Option (String × String)
    behind c none = none
    behind c (some (before, after)) = some (String.◌∷◌ c before, after)

abbrev is_digit : ℕ → Bool
is_digit n = leb b'0' n && leb n b'9'

-- The number that decimal digits spell after `n`, with single underscores between digits.
digits : (after_digit : Bool) → ℕ → String → Option ℕ
digits true n String.[] = some n
digits false n String.[] = none
digits after_digit n (String.◌∷◌ c s) =
    let digit = is_digit (code c) in
    let rest = digits digit (if digit then 10 * n + (code c - b'0') else n) s in
    if digit || after_digit && nat_eq (code c) b'_' then rest else none

negate : Option ℕ → Option ℤ
negate none = none
negate (some zero) = some (pos 0)
negate (some (suc n)) = some (negsuc n)

positive : Option ℕ → Option ℤ
positive none = none
positive (some n) = some (pos n)

signed : String → Option ℤ
unfolding negate positive digits
signed String.[] = none
signed (String.◌∷◌ c s) =
    if nat_eq (code c) b'-'
    then negate (digits false 0 s)
    else if nat_eq (code c) b'+'
    then positive (digits false 0 s)
    else positive (digits false 0 (String.◌∷◌ c s))

-- `int(s)`; `none` is a ValueError
unfoldable pub int : String → Option ℤ
unfolding signed strip
int s = signed (strip s)

all_digits : String → Bool
all_digits String.[] = true
all_digits (String.◌∷◌ c s) = is_digit (code c) && all_digits s

-- `s.isdigit()`
unfoldable pub isdigit : String → Bool
unfolding all_digits
isdigit String.[] = false
isdigit (String.◌∷◌ c s) = all_digits (String.◌∷◌ c s)

abbrev pub int_eq : ℤ → ℤ → Bool
int_eq (pos m) (pos n) = nat_eq m n
int_eq (negsuc m) (negsuc n) = nat_eq m n
int_eq _ _ = false

-- `a <= b`
abbrev int_leb : ℤ → ℤ → Bool
int_leb (pos m) (pos n) = leb m n
int_leb (pos m) (negsuc n) = false
int_leb (negsuc m) (pos n) = true
int_leb (negsuc m) (negsuc n) = leb n m

-- `a + 1`
abbrev next : ℤ → ℤ
next (pos n) = pos (suc n)
next (negsuc zero) = pos 0
next (negsuc (suc n)) = negsuc n

-- `b - a`, where `a <= b`
abbrev distance : ℤ → ℤ → ℕ
distance (pos m) (pos n) = n - m
distance (pos m) (negsuc n) = 0
distance (negsuc m) (pos n) = suc (m + n)
distance (negsuc m) (negsuc n) = m - n

-- the integers from `a` on, that many of them
counted : ℤ → ℕ → List ℤ
counted a zero = []
counted a (suc n) = a ∷ counted (next a) n

-- `range(min(a, b), max(a, b) + 1)`
unfoldable pub range_between : ℤ → ℤ → List ℤ
unfolding counted
range_between a b =
    if int_leb a b then counted a (suc (distance a b)) else counted b (suc (distance b a))
