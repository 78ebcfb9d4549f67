-- ===== src/Domain/CitedPath.antt =====
-- domain/services/review_item_factory.py: `_normalize_file_path` and what it calls. The library of paths
-- and the file system are the record `Files`.
pub mod Best
pub mod Chosen
use pr_auto_reviewer.Prelude.{
  ℕ, String, Bool, true, false, List, [], ◌∷◌, Option, none, some, not, ◌&&◌, ◌||◌, ◌==◌, ltb,
  nat_eq, map, if◌then◌else◌,
}
use Prim.Native.Char.{code}
use Prim.Native.String.{count}
use text.Mathlib.Text.{starts_with}
use pr_auto_reviewer.Prelude.Integers.{split}
use pr_auto_reviewer.Prelude.Lists.{last}
use pr_auto_reviewer.Prelude.Text.{truthy, occurs}
use pr_auto_reviewer.Prelude.Words.{append, ends_with}

-- What `pathlib` and the repository at `resolved_repo_root` answer.
pub record Files : Type 0 where
  -- `Path(p).is_absolute()`
  pub is_absolute : String → Bool
  -- `Path(p).resolve().as_posix()`
  pub resolve : String → String
  -- `Path(p).resolve().relative_to(root).as_posix()`; `none` is the ValueError
  pub relative_to_root : String → Option String
  -- `Path(p).as_posix()`
  pub as_posix : String → String
  -- `(root / p).exists()`
  pub exists : String → Bool

-- `s.lstrip("/")`
unfoldable pub lstrip_slash : String → String
lstrip_slash String.[] = ""
lstrip_slash (String.◌∷◌ c s) =
    let rest = lstrip_slash s in if nat_eq (code c) b'/' then rest else String.◌∷◌ c s

-- `s[2:]`
drop_two : String → String
drop_two (String.◌∷◌ c (String.◌∷◌ d s)) = s
drop_two _ = ""

unfoldable pub clean_changed_file : Files → String → String
unfolding drop_two
clean_changed_file files changed_file = files.as_posix (
    if starts_with changed_file "a/" || starts_with changed_file "b/"
    then drop_two changed_file
    else changed_file)

-- `s.rsplit("/", 1)[-1]`
pub basename : String → String
unfolding split
basename s = elim (last (split b'/' s)) [ none ↦ s | some piece ↦ piece ]

-- the rank of one changed file among the candidates; `none` where it is no candidate
unfoldable pub match_rank : (cleaned changed_file_path : String) → Option ℕ
unfolding ends_with basename append
match_rank cleaned changed_file_path =
    if changed_file_path == cleaned
    then some 0
    else if ends_with changed_file_path (append "/" cleaned)
    then some 1
    else if not (occurs "/" cleaned) && basename changed_file_path == cleaned
    then some 2
    else none

-- `candidate < other` on (rank, length)
unfoldable pub precedes : ℕ × String → ℕ × String → Bool
precedes (rank, path) (rank', path') =
    ltb rank rank' || nat_eq rank rank' && ltb (count path) (count path')

-- one changed file before the candidates of the others
unfoldable pub listed : String → Option ℕ → List (ℕ × String) → List (ℕ × String)
listed path none rest = rest
listed path (some rank) rest = (rank, path) ∷ rest

unfoldable pub candidates : Files → String → List String → List (ℕ × String)
unfolding listed
candidates files cleaned [] = []
candidates files cleaned (changed_file ∷ changed_files) =
    let path = clean_changed_file files changed_file in
    listed path (match_rank cleaned path) (candidates files cleaned changed_files)

-- the head of the list after a stable sort
unfoldable pub first_sorted : ℕ × String → List (ℕ × String) → ℕ × String
unfolding precedes
first_sorted best [] = best
first_sorted best (candidate ∷ rest) =
    first_sorted (if precedes candidate best then candidate else best) rest

unfoldable pub resolve_absolute_changed_file : Files → String → List String → Option String
unfolding clean_changed_file ends_with append
resolve_absolute_changed_file files resolved_path [] = none
resolve_absolute_changed_file files resolved_path (changed_file ∷ changed_files) =
    let rest = resolve_absolute_changed_file files resolved_path changed_files in
    let cleaned = clean_changed_file files changed_file in
    if ends_with resolved_path (append "/" cleaned) && files.exists cleaned
    then some (files.as_posix cleaned)
    else rest

unfoldable pub best_of : Files → List (ℕ × String) → Option String
best_of files [] = none
best_of files (candidate ∷ rest) = some (files.as_posix (first_sorted candidate rest).1)

-- the file's path in the repository; `none` is the pair (None, file_path)
unfoldable pub resolve_file_path : Files → String → List String → Option String
resolve_file_path files file_path changed_files =
    if files.is_absolute file_path
    then in_root (files.relative_to_root file_path)
    else if files.exists file_path
    then some (files.as_posix file_path)
    else best_of files (candidates files (lstrip_slash file_path) changed_files)
  where
    in_root : Option String → Option String
    in_root none = resolve_absolute_changed_file files (files.resolve file_path) changed_files
    in_root (some relative_path) = if files.exists relative_path then some relative_path else none

-- `repo_path is None` is `none`; no changed files and None are the same here
unfoldable pub normalize_file_path : Option Files → String → List String → Option String
unfolding resolve_file_path
normalize_file_path none file_path changed_files = some file_path
normalize_file_path (some files) file_path changed_files =
    if not (truthy file_path)
    then some file_path
    else resolve_file_path files file_path changed_files
