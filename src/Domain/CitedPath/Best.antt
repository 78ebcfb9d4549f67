-- ===== src/Domain/CitedPath/Best.antt =====
-- The candidates for a cited path, and the first of them.
use mathlib.Core.Bool.{false≢true}
use pr_auto_reviewer.Prelude.{
  ℕ, String, true, false, ◌≡◌, refl, inl, inr, List, [], ◌∷◌, Option, none, some, arith, sym, subst,
  Option-cases, ap, ◌∙◌, is_some, if◌then◌else◌,
}
use pr_auto_reviewer.Prelude.Lists.{All, Any, All-mono, Any-mono}
use pr_auto_reviewer.Domain.CitedPath.{
  Files, clean_changed_file, match_rank, precedes, listed, candidates, first_sorted, lstrip_slash,
}

-- `best` is one of the candidates, and none of them precedes it.
unfoldable pub IsFirst : ℕ × String → List (ℕ × String) → Type 0
IsFirst best cs = Any (λ c. c ≡ best) cs × All (λ c. precedes c best ≡ false) cs

precedes_trans :
    (a b c : ℕ × String) → precedes a b ≡ true → precedes a c ≡ false → precedes b c ≡ false
unfolding precedes
precedes_trans a b c p q = ground arith

precedes_neg_trans :
    (a b c : ℕ × String) → precedes a b ≡ false → precedes b c ≡ false → precedes a c ≡ false
unfolding precedes
precedes_neg_trans a b c p q = ground arith

precedes_irrefl : (a : ℕ × String) → precedes a a ≡ false
unfolding precedes
precedes_irrefl a = ground arith

one_more :
    (best c r : ℕ × String) (rest : List (ℕ × String))
    → IsFirst r ((if precedes c best then c else best) ∷ rest)
    → IsFirst r (best ∷ c ∷ rest)
unfolding IsFirst
one_more best c r rest h = ground (arith, precedes_trans c best r, precedes_neg_trans c best r)

pub first_sorted-IsFirst :
    (best : ℕ × String) (rest : List (ℕ × String)) → IsFirst (first_sorted best rest) (best ∷ rest)
unfolding first_sorted IsFirst
first_sorted-IsFirst best [] = (inl refl, (precedes_irrefl best, tt))
first_sorted-IsFirst best (c ∷ rest) =
    let best' = if precedes c best then c else best in
    one_more best c (first_sorted best' rest) rest (first_sorted-IsFirst best' rest)

module _ (files : Files) (cleaned : String) where
  -- the candidate that one changed file gives
  abbrev Gives : String → ℕ × String → Type 0
  Gives f c = (clean_changed_file files f ≡ c.1) × (match_rank cleaned c.1 ≡ some c.0)

  with_candidate : String → List String → Option ℕ → List (ℕ × String)
  with_candidate f fs rank = listed (clean_changed_file files f) rank (candidates files cleaned fs)

  Any-candidates :
      (P : ℕ × String → Type 0) (fs : List String)
      → Any P (candidates files cleaned fs)
      → Any (λ f. (c : ℕ × String) × Gives f c × P c) fs
  unfolding candidates with_candidate
  Any-candidates P [] h = elim h [ ]
  Any-candidates P (f ∷ fs) h =
      elim (Option-cases (match_rank cleaned (clean_changed_file files f))) [
        | inl e ↦ inr (Any-candidates P fs (subst (λ o. Any P (with_candidate f fs o)) e h))
        | inr (rank, e) ↦ elim (subst (λ o. Any P (with_candidate f fs o)) e h) [
          | inl p ↦ inl ((rank, clean_changed_file files f), (refl, e), p)
          | inr rest ↦ inr (Any-candidates P fs rest)
        ]
      ]

  All-candidates :
      (P : ℕ × String → Type 0) (fs : List String)
      → All P (candidates files cleaned fs)
      → All
          (λ f.
            (rank : ℕ)
            → match_rank cleaned (clean_changed_file files f) ≡ some rank
            → P (rank, clean_changed_file files f))
          fs
  unfolding candidates with_candidate
  All-candidates P [] h = tt
  All-candidates P (f ∷ fs) h =
      elim (Option-cases (match_rank cleaned (clean_changed_file files f))) [
        | inl e ↦ (
          λ rank e'. elim (false≢true (ap is_some (sym e ∙ e'))) [ ],
          All-candidates P fs (subst (λ o. All P (with_candidate f fs o)) e h),
        )
        | inr (rank, e) ↦
            let (p, rest) = subst (λ o. All P (with_candidate f fs o)) e h in
            (
              λ rank' e'. subst (λ r. P (r, clean_changed_file files f)) (ground arith) p,
              All-candidates P fs rest,
            )
      ]

-- the rank of a changed file for a cited path
abbrev rank_of : Files → String → String → Option ℕ
rank_of files file_path f = match_rank (lstrip_slash file_path) (clean_changed_file files f)

-- `path`, with its rank, is that of a changed file, and none that matches precedes it.
unfoldable pub IsBest : Files → String → List String → ℕ × String → Type 0
IsBest files file_path changed_files (rank, path) =
    Any (λ f. (clean_changed_file files f ≡ path) × (rank_of files file_path f ≡ some rank))
      changed_files
    × All
        (λ f.
          (r : ℕ)
          → rank_of files file_path f ≡ some r
          → precedes (r, clean_changed_file files f) (rank, path) ≡ false)
        changed_files

pub no_candidates :
    (files : Files) (cleaned : String) (fs : List String)
    → candidates files cleaned fs ≡ []
    → All (λ f. match_rank cleaned (clean_changed_file files f) ≡ none) fs
no_candidates files cleaned fs e =
    All-mono _ (λ f. match_rank cleaned (clean_changed_file files f) ≡ none)
      (λ f h. elim (Option-cases (match_rank cleaned (clean_changed_file files f))) [
        | inl n ↦ n
        | inr (r, s) ↦ elim (h r s) [ ]
      ])
      fs (All-candidates files cleaned (λ c. ⊥) fs (subst (All (λ c. ⊥)) (sym e) tt))

pub IsBest-candidate :
    (files : Files) (file_path : String) (fs : List String) (best : ℕ × String)
    → IsFirst best (candidates files (lstrip_slash file_path) fs)
    → IsBest files file_path fs best
unfolding IsFirst IsBest
IsBest-candidate files file_path fs best (is, least) = (
  Any-mono _
      (λ f. (clean_changed_file files f ≡ best.1) × (rank_of files file_path f ≡ some best.0))
      (λ f h.
        let (c, (p, m), e) = h in
        (
          p ∙ ap (λ x. x.1) e,
          ap (match_rank (lstrip_slash file_path)) p ∙ m ∙ ap (λ x. some x.0) e,
        ))
      fs (Any-candidates files (lstrip_slash file_path) (λ c. c ≡ best) fs is),
  All-candidates files (lstrip_slash file_path) (λ c. precedes c best ≡ false) fs least,
)
