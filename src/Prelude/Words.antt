-- ===== src/Prelude/Words.antt =====
-- Texts put together: white space squeezed, lines joined, a set of texts sorted.
pub mod Decimals
use native.Mathlib.Omega.{arith}
use mathlib.Core.Path.{◌≡◌, refl}
use pr_auto_reviewer.Prelude.Sets.{contains}
use text.Mathlib.Text.{◌==◌}
use pr_auto_reviewer.Prelude.Lists.{first}
use mathlib.Core.Option.{none, some}
use Prim.Native.Nat.{Ordering, ℕ, zero, suc, ◌/◌, ◌%◌}
use Prim.Native.String.{String, compare}
use Prim.Native.Char.{code}
use mathlib.Core.Bool.{Bool, true, false, ◌||◌}
use mathlib.Core.List.{List, [], ◌∷◌}
use pr_auto_reviewer.Prelude.Tests.{if◌then◌else◌, nat_eq, ltb}
use pr_auto_reviewer.Prelude.Text.{is_space, strip}

-- `a + b`
unfoldable pub append : String → String → String
append String.[] b = b
append (String.◌∷◌ c a) b = String.◌∷◌ c (append a b)

-- `"\n".join(lines)`
unfoldable pub join_lines : List String → String
unfolding append
join_lines [] = ""
join_lines (line ∷ []) = line
join_lines (line ∷ next ∷ lines) = append line (append "\n" (join_lines (next ∷ lines)))

starts_with_space : String → Bool
unfolding is_space
starts_with_space String.[] = false
starts_with_space (String.◌∷◌ c s) = is_space (code c)

-- Each run of white space as one blank.
collapse : String → String
unfolding is_space starts_with_space
collapse String.[] = ""
collapse (String.◌∷◌ c s) =
    let rest = collapse s in
    if is_space (code c)
    then (if starts_with_space rest then rest else append " " rest)
    else String.◌∷◌ c rest

-- `" ".join(s.split())`
unfoldable pub squeeze : String → String
unfolding collapse strip
squeeze s = collapse (strip s)

-- `a <= b`, code point by code point
abbrev text_leb : String → String → Bool
text_leb a b = elim (compare a b) [ Ordering.gt ↦ false | _ ↦ true ]

unfoldable pub place : String → List String → List String
place s [] = s ∷ []
place s (t ∷ ts) = let rest = place s ts in if text_leb s t then s ∷ t ∷ ts else t ∷ rest

-- `sorted(texts)`
unfoldable pub sorted : List String → List String
unfolding place
sorted [] = []
sorted (s ∷ ss) = place s (sorted ss)

contains-place :
    (k s : String) (ss : List String) → contains k (place s ss) ≡ s == k || contains k ss
unfolding contains place
contains-place k s [] = refl
contains-place k s (t ∷ ts) = ground (arith, contains-place k s ts)

pub contains-sorted : (k : String) (ss : List String) → contains k (sorted ss) ≡ contains k ss
unfolding sorted contains
contains-sorted k [] = refl
contains-sorted k (s ∷ ss) = ground (arith, contains-place k s (sorted ss), contains-sorted k ss)

-- `sep.join(pieces)`
unfoldable pub join : String → List String → String
unfolding append
join sep [] = ""
join sep (piece ∷ []) = piece
join sep (piece ∷ next ∷ pieces) = append piece (append sep (join sep (next ∷ pieces)))

-- one decimal digit
pub digit_text : ℕ → String
digit_text n = elim (first (λ entry. nat_eq entry.0 n) table) [ none ↦ "9" | some entry ↦ entry.1 ]
  where
    table : List (ℕ × String)
    table =
        (0, "0")
        ∷ (1, "1")
        ∷ (2, "2")
        ∷ (3, "3")
        ∷ (4, "4")
        ∷ (5, "5")
        ∷ (6, "6")
        ∷ (7, "7")
        ∷ (8, "8")
        ∷ []

-- The digits of `n` before `rest`; `n` itself is fuel enough.
pub decimal : (fuel n : ℕ) (rest : String) → String
unfolding digit_text append
decimal zero n rest = append (digit_text n) rest
decimal (suc fuel) n rest =
    let more = decimal fuel (n / 10) (append (digit_text (n % 10)) rest) in
    if ltb n 10 then append (digit_text n) rest else more

-- `str(n)`
unfoldable pub show : ℕ → String
unfolding decimal
show n = decimal n n ""

-- `s.endswith(suffix)`
unfoldable pub ends_with : String → String → Bool
ends_with String.[] suffix = suffix == ""
ends_with (String.◌∷◌ c s) suffix = String.◌∷◌ c s == suffix || ends_with s suffix
