-- ===== src/Domain/AllowList.antt =====
-- domain/services/repository_allow_list.py. The set of entries is a list; `casefold` is taken on ASCII. A
-- text contains a colon if `partition` finds one.
pub mod Candidates
use text.Mathlib.Text.{starts_with}
use pr_auto_reviewer.Prelude.{
  String, Bool, true, false, List, [], ◌∷◌, ◌++◌, Option, none, some, not, ◌==◌, map, is_some,
  if◌then◌else◌,
}
use pr_auto_reviewer.Prelude.Integers.{partition}
use pr_auto_reviewer.Prelude.Lists.{any}
use pr_auto_reviewer.Prelude.Sets.{contains, union}
use pr_auto_reviewer.Prelude.Text.{truthy, strip, lower}
use pr_auto_reviewer.Prelude.Words.{append, ends_with, sorted}

pub record RepositoryAllowList : Type 0 where
  pub allowed_repositories : List String

abbrev pub allowing_every_repository : RepositoryAllowList
allowing_every_repository = record { allowed_repositories = [] }

-- `s.removeprefix(prefix)`, where `s` starts with `prefix`
drop_prefix : String → String → String
drop_prefix String.[] s = s
drop_prefix (String.◌∷◌ c prefix) String.[] = ""
drop_prefix (String.◌∷◌ c prefix) (String.◌∷◌ d s) = drop_prefix prefix s

unfoldable pub normalize_entry : String → String
unfolding strip lower drop_prefix append
normalize_entry raw =
    let normalized = lower (strip raw) in
    if starts_with normalized "codeberg:"
    then append "forgejo:" (drop_prefix "codeberg:" normalized)
    else normalized

normalized_entries : List String → List String
unfolding normalize_entry strip
normalized_entries [] = []
normalized_entries (entry ∷ entries) =
    let rest = normalized_entries entries in
    if truthy (strip entry) then normalize_entry entry ∷ rest else rest

unfoldable pub from_entries : List String → RepositoryAllowList
unfolding normalized_entries union
from_entries entries = record { allowed_repositories = union [] (normalized_entries entries) }

abbrev pub has_entries : List String → Bool
has_entries [] = false
has_entries (e ∷ es) = true

abbrev pub allows_every_repository : RepositoryAllowList → Bool
allows_every_repository l = not (has_entries l.allowed_repositories)

-- `":" in text`
abbrev pub has_colon : String → Bool
has_colon s = is_some (partition b':' s)

unfoldable pub normalize_platform : String → String
unfolding strip lower
normalize_platform platform =
    let normalized = lower (strip platform) in
    if normalized == "codeberg" then "forgejo" else normalized

-- `f"{platform}:{entry}"`
abbrev pub prefixed : String → String → String
prefixed platform entry = append platform (append ":" entry)

-- the part before the colon, if there is one
abbrev prefix_of : String → Option (String × String) → String
prefix_of entry none = entry
prefix_of entry (some (before, after)) = before

unfoldable pub entry_matches_platform : String → List String → Bool
entry_matches_platform entry platforms = contains (prefix_of entry (partition b':' entry)) platforms

unfoldable pub candidates_for_entry : String → List String → List String
unfolding entry_matches_platform
candidates_for_entry entry platforms =
    if has_colon entry
    then (if entry_matches_platform entry platforms then entry ∷ [] else [])
    else map (λ platform. prefixed platform entry) platforms

unfoldable pub candidates_for : List String → List String → List String
candidates_for [] platforms = []
candidates_for (entry ∷ entries) platforms =
    candidates_for_entry entry platforms ++ candidates_for entries platforms

unfoldable pub candidates : RepositoryAllowList → List String → List String
unfolding sorted
candidates l [] = sorted l.allowed_repositories
candidates l (platform ∷ platforms) = sorted (
    union []
      (candidates_for l.allowed_repositories (map normalize_platform (platform ∷ platforms))))

-- the last test of `allows`, by what `partition` finds
abbrev pub bare_matches : List String → String → Option (String × String) → Bool
bare_matches entries name none = any (λ entry. ends_with entry (append ":" name)) entries
bare_matches entries name (some (platform, bare_repo)) = contains bare_repo entries

unfoldable pub matches_cross_platform : RepositoryAllowList → String → Bool
matches_cross_platform l normalized_name =
    bare_matches l.allowed_repositories normalized_name (partition b':' normalized_name)

-- `allows`, for a normalized name and a list with entries
unfoldable pub allows_normalized : RepositoryAllowList → String → Bool
unfolding matches_cross_platform
allows_normalized l normalized =
    if not (truthy normalized)
    then false
    else if contains normalized l.allowed_repositories
    then true
    else matches_cross_platform l normalized

unfoldable pub allows : RepositoryAllowList → String → Bool
unfolding normalize_entry
allows l repository_full_name =
    if allows_every_repository l
    then true
    else allows_normalized l (normalize_entry repository_full_name)
