-- ===== src/Prelude/Text.antt =====
-- The methods of Python's `str` that the modelled code calls. Letters outside ASCII are left as they
-- are by `lower`; `strip` knows every character that `str.isspace` accepts.
use mathlib.Core.Bool.{Bool, false, true, ◌&&◌, ◌||◌}
use Prim.Native.Nat.{ℕ}
use Prim.Native.Char.{Char, code}
use Prim.Native.String.{String}
use text.Mathlib.Text.{◌==◌, find?}
use pr_auto_reviewer.Prelude.Tests.{if◌then◌else◌, leb, nat_eq, is_some}

-- `bool(s)`
abbrev pub truthy : String → Bool
truthy String.[] = false
truthy (String.◌∷◌ c s) = true

-- `a or b`
abbrev pub or_else : String → String → String
or_else String.[] b = b
or_else (String.◌∷◌ c s) b = String.◌∷◌ c s

between : ℕ → ℕ → ℕ → Bool
between lo hi n = leb lo n && leb n hi

unfoldable pub is_space : ℕ → Bool
unfolding between
is_space n =
    between 9 13 n
    || between 28 32 n
    || nat_eq n 133
    || nat_eq n 160
    || nat_eq n 5760
    || between 8192 8202 n
    || between 8232 8233 n
    || nat_eq n 8239
    || nat_eq n 8287
    || nat_eq n 12288

-- `s.lstrip()`
unfoldable pub lstrip : String → String
unfolding is_space
lstrip String.[] = ""
lstrip (String.◌∷◌ c s) = let rest = lstrip s in if is_space (code c) then rest else String.◌∷◌ c s

-- `s.rstrip()`
unfoldable pub rstrip : String → String
unfolding is_space
rstrip String.[] = ""
rstrip (String.◌∷◌ c s) =
    let rest = rstrip s in if not_truthy rest && is_space (code c) then "" else String.◌∷◌ c rest
  where
    not_truthy : String → Bool
    not_truthy t = t == ""

-- `s.strip()`
unfoldable pub strip : String → String
unfolding lstrip rstrip
strip s = rstrip (lstrip s)

-- The character that stands in `to` where `c` stands in `from`.
translate : String → String → Char → Char
translate String.[] to c = c
translate (String.◌∷◌ f from) String.[] c = c
translate (String.◌∷◌ f from) (String.◌∷◌ t to) c =
    if nat_eq (code f) (code c) then t else translate from to c

map_chars : (Char → Char) → String → String
map_chars f String.[] = ""
map_chars f (String.◌∷◌ c s) = String.◌∷◌ (f c) (map_chars f s)

-- `s.lower()`, and `s.casefold()` on ASCII
unfoldable pub lower : String → String
unfolding translate map_chars
lower = map_chars (translate "ABCDEFGHIJKLMNOPQRSTUVWXYZ" "abcdefghijklmnopqrstuvwxyz")

-- `s.replace(from, to)` for two characters
unfoldable pub replace_char : String → String → String → String
unfolding translate map_chars
replace_char from to = map_chars (translate from to)

-- `needle in s`
abbrev pub occurs : String → String → Bool
occurs needle s = is_some (find? s needle)
