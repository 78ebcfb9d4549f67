-- ===== src/Domain/CitedPath/Chosen.antt =====
-- domain/services/review_item_factory.py: the changed file that stands for a cited path.
use Prim.Native.String.{count}
use pr_auto_reviewer.Prelude.{
  ℕ, Bool, String, map, not, ◌&&◌, ◌||◌, ◌==◌, ◌≤◌, true, false, ◌≡◌, refl, ◌⊎◌, inl, inr, List, [],
  ◌∷◌, none, some, arith, sym, subst,
}
use pr_auto_reviewer.Prelude.Lists.{All, Any, All-mono, List-cases, Any-mono}
use pr_auto_reviewer.Prelude.Text.{occurs}
use pr_auto_reviewer.Prelude.Words.{append, ends_with}
use pr_auto_reviewer.Domain.CitedPath.{
  Files, clean_changed_file, match_rank, precedes, candidates, first_sorted, resolve_file_path,
  lstrip_slash, best_of, basename,
}
use pr_auto_reviewer.Domain.CitedPath.Best.{
  IsBest, IsFirst, IsBest-candidate, first_sorted-IsFirst, no_candidates,
}

-- how a changed file may match a path: by the whole path, its tail, or the name of the file
abbrev pub is_whole : (cleaned path : String) → Bool
is_whole cleaned path = path == cleaned

abbrev pub is_tail : (cleaned path : String) → Bool
is_tail cleaned path = ends_with path (append "/" cleaned)

abbrev pub is_name : (cleaned path : String) → Bool
is_name cleaned path = not (occurs "/" cleaned) && basename path == cleaned

-- `path` is the whole path; or where no changed file is, the shortest that has it as its tail; or where
-- none has, the shortest of its name.
abbrev pub IsChosen : (cleaned path : String) → (paths : List String) → Type 0
IsChosen cleaned path paths =
    (is_whole cleaned path ≡ true)
    ⊎ ((is_tail cleaned path ≡ true)
        × All
            (λ p. (is_whole cleaned p ≡ false) × (is_tail cleaned p ≡ true → count path ≤ count p))
            paths)
    ⊎ ((is_name cleaned path ≡ true)
        × All
            (λ p.
              (is_whole cleaned p ≡ false)
              × (is_tail cleaned p ≡ false)
              × (is_name cleaned p ≡ true → count path ≤ count p))
            paths)

-- the changed files as they are compared
abbrev pub cleaned_files : Files → List String → List String
cleaned_files files fs = map (clean_changed_file files) fs

unmatched :
    (cleaned p : String)
    → match_rank cleaned p ≡ none
    → is_whole cleaned p || is_tail cleaned p || is_name cleaned p ≡ false
unfolding match_rank
unmatched cleaned p h = ground (arith, h)

rank-cases :
    (cleaned p : String) (rank : ℕ)
    → match_rank cleaned p ≡ some rank
    → ((is_whole cleaned p ≡ true) × (rank ≡ 0))
      ⊎ ((is_tail cleaned p ≡ true) × (rank ≡ 1))
      ⊎ ((is_name cleaned p ≡ true) × (rank ≡ 2))
unfolding match_rank
rank-cases cleaned p rank h = ground (arith, h)

-- what a match that is not preceded says of another changed file
Least : (cleaned : String) → ℕ × String → String → Type 0
Least cleaned best p = (r : ℕ) → match_rank cleaned p ≡ some r → precedes (r, p) best ≡ false

Least-tail :
    (cleaned path p : String)
    → Least cleaned (1, path) p
    → (is_whole cleaned p ≡ false) × (is_tail cleaned p ≡ true → count path ≤ count p)
unfolding Least match_rank precedes
Least-tail cleaned path p h = ground (arith, h 0, h 1)

Least-name :
    (cleaned path p : String)
    → Least cleaned (2, path) p
    → (is_whole cleaned p ≡ false)
      × (is_tail cleaned p ≡ false)
      × (is_name cleaned p ≡ true → count path ≤ count p)
unfolding Least match_rank precedes
Least-name cleaned path p h = ground (arith, h 0, h 1, h 2)

All-cleaned :
    (files : Files) (P : String → Type 0) (fs : List String)
    → All (λ f. P (clean_changed_file files f)) fs
    → All P (cleaned_files files fs)
All-cleaned files P [] h = tt
All-cleaned files P (f ∷ fs) (h, hs) = (h, All-cleaned files P fs hs)

Any-cleaned :
    (files : Files) (P : String → Type 0) (fs : List String)
    → Any (λ f. P (clean_changed_file files f)) fs
    → Any P (cleaned_files files fs)
Any-cleaned files P [] h = h
Any-cleaned files P (f ∷ fs) (inl h) = inl h
Any-cleaned files P (f ∷ fs) (inr h) = inr (Any-cleaned files P fs h)

IsChosen-best :
    (files : Files) (file_path : String) (fs : List String) (best : ℕ × String)
    → IsBest files file_path fs best
    → Any
        (λ p. (p ≡ best.1) × (match_rank (lstrip_slash file_path) p ≡ some best.0))
        (cleaned_files files fs)
      × All (Least (lstrip_slash file_path) best) (cleaned_files files fs)
unfolding IsBest Least
IsChosen-best files file_path fs best (is, least) = (
  Any-cleaned files (λ p. (p ≡ best.1) × (match_rank (lstrip_slash file_path) p ≡ some best.0)) fs
      is,
  All-cleaned files (λ p. Least (lstrip_slash file_path) best p) fs least,
)

Any-rank :
    (cleaned path : String) (rank : ℕ) (paths : List String)
    → Any (λ p. (p ≡ path) × (match_rank cleaned p ≡ some rank)) paths
    → match_rank cleaned path ≡ some rank
Any-rank cleaned path rank [] h = elim h [ ]
Any-rank cleaned path rank (p ∷ ps) (inl (e, m)) = subst (λ q. match_rank cleaned q ≡ some rank) e m
Any-rank cleaned path rank (p ∷ ps) (inr h) = Any-rank cleaned path rank ps h

chosen :
    (cleaned path : String) (rank : ℕ) (paths : List String)
    → match_rank cleaned path ≡ some rank
    → All (Least cleaned (rank, path)) paths
    → IsChosen cleaned path paths
chosen cleaned path rank paths m least = elim (rank-cases cleaned path rank m) [
  | inl (w, z) ↦ inl w
  | inr (inl (t, z)) ↦ inr (
      inl (
        t,
        All-mono (Least cleaned (1, path)) _ (λ p. Least-tail cleaned path p) paths
            (subst (λ r. All (Least cleaned (r, path)) paths) z least),
      ))
  | inr (inr (n, z)) ↦ inr (
      inr (
        n,
        All-mono (Least cleaned (2, path)) _ (λ p. Least-name cleaned path p) paths
            (subst (λ r. All (Least cleaned (r, path)) paths) z least),
      ))
]

-- A relative path that is not a file of the repository is resolved to a changed file or not at all. It is
-- resolved to none only if no changed file matches it by the whole path, its tail or the file's name. Else
-- it is resolved to one of the changed files: to the one that is the whole path; without one, to the
-- shortest that has the path as its tail; and without any of these, to the shortest of its name.
pub resolve_file_path_lem :
    (files : Files) (file_path : String) (changed_files : List String)
    → files.is_absolute file_path ≡ false
    → files.exists file_path ≡ false
    → let cleaned = lstrip_slash file_path in
      let paths = cleaned_files files changed_files in
      ((resolve_file_path files file_path changed_files ≡ none)
        × All (λ p. is_whole cleaned p || is_tail cleaned p || is_name cleaned p ≡ false) paths)
      ⊎ ((path : String) × (resolve_file_path files file_path changed_files
            ≡ some (files.as_posix path))
          × Any (λ p. p ≡ path) paths
          × IsChosen cleaned path paths)
unfolding resolve_file_path best_of
resolve_file_path_lem files file_path changed_files a e =
    let cleaned = lstrip_slash file_path in
    let paths = cleaned_files files changed_files in
    rw (a, e)
      (elim (List-cases (candidates files cleaned changed_files)) [
        | inl n ↦ inl (
          rw n refl,
          All-cleaned files
              (λ p. is_whole cleaned p || is_tail cleaned p || is_name cleaned p ≡ false)
              changed_files
              (All-mono (λ f. match_rank cleaned (clean_changed_file files f) ≡ none) _
                (λ f. unmatched cleaned (clean_changed_file files f)) changed_files
                (no_candidates files cleaned changed_files n)),
        )
        | inr (c, rest, q) ↦
            let best = first_sorted c rest in
            let (is, least) = IsChosen-best files file_path changed_files best (
              IsBest-candidate files file_path changed_files best
                (subst (IsFirst best) (sym q) (first_sorted-IsFirst c rest))) in
            inr (
              best.1,
              rw q refl,
              Any-mono (λ p. (p ≡ best.1) × (match_rank cleaned p ≡ some best.0)) (λ p. p ≡ best.1)
                  (λ p h. h.0) paths is,
              chosen cleaned best.1 best.0 paths (Any-rank cleaned best.1 best.0 paths is) least,
            )
      ])
