-- ===== src/Examples/AllowLists.antt =====
-- An allow list with a bare entry, and one for a single platform.
use pr_auto_reviewer.Prelude.{[], ◌∷◌, ◌⊎◌, ◌≡◌, refl, true, false}
use pr_auto_reviewer.Prelude.Integers.{partition}
use pr_auto_reviewer.Prelude.Sets.{contains, union}
use pr_auto_reviewer.Prelude.Text.{strip, lower}
use pr_auto_reviewer.Prelude.Words.{append, sorted, ends_with}
use pr_auto_reviewer.Domain.AllowList.{
  RepositoryAllowList, from_entries, normalize_entry, normalize_platform, allows, allows_normalized,
  allows_every_repository, matches_cross_platform, candidates, candidates_for, candidates_for_entry,
  entry_matches_platform,
}
use pr_auto_reviewer.Domain.AllowList.Candidates.{contains-candidates}

abbrev allow_list : RepositoryAllowList
allow_list = record { allowed_repositories = "forgejo:o/s" ∷ "o/r" ∷ [] }

test_from_entries :
    from_entries ("O/R" ∷ " " ∷ "codeberg:o/s" ∷ [])
    ≡ record { allowed_repositories = "o/r" ∷ "forgejo:o/s" ∷ [] }
unfolding from_entries normalize_entry strip lower append union
test_from_entries = refl

test_allows : allows allow_list "Codeberg:o/R" ≡ true
unfolding allows normalize_entry strip lower append contains partition matches_cross_platform
    allows_normalized ends_with
test_allows = refl

test_allows_bare : allows allow_list "o/s" ≡ true
unfolding allows normalize_entry strip lower append contains partition matches_cross_platform
    allows_normalized ends_with
test_allows_bare = refl

test_allows_other : allows allow_list "github:o/s" ≡ false
unfolding allows normalize_entry strip lower append contains partition matches_cross_platform
    allows_normalized ends_with
test_allows_other = refl

test_candidates :
    candidates allow_list ("github" ∷ "codeberg" ∷ [])
    ≡ "forgejo:o/r" ∷ "forgejo:o/s" ∷ "github:o/r" ∷ []
unfolding candidates candidates_for candidates_for_entry entry_matches_platform normalize_platform
    strip lower append contains partition union sorted
test_candidates = refl

contains-candidates_example :
    ((allows_every_repository allow_list ≡ true)
      × (candidates allow_list ("github" ∷ "codeberg" ∷ []) ≡ [])
      × (allows allow_list "forgejo:o/s" ≡ true))
    ⊎ ((allows_every_repository allow_list ≡ false)
        × (contains "forgejo:o/s" (candidates allow_list ("github" ∷ "codeberg" ∷ []))
            ≡ allows allow_list "forgejo:o/s"))
unfolding append partition normalize_platform normalize_entry strip lower contains
contains-candidates_example =
    contains-candidates allow_list "github" ("codeberg" ∷ []) "forgejo" "o/s" refl
      (refl, (refl, tt)) refl refl refl
