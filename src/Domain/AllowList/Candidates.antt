-- ===== src/Domain/AllowList/Candidates.antt =====
-- The repositories to poll, against those that are allowed.
use pr_auto_reviewer.Prelude.{
  String, Bool, true, false, ◌≡◌, refl, List, [], ◌∷◌, Option, none, some, ◌==◌, ◌||◌, ◌&&◌, map,
  arith, eq_iff, ap, ◌∙◌, sym, Bool-cases, inl, inr, ◌⊎◌, subst, not,
}
use pr_auto_reviewer.Prelude.Integers.{partition}
use pr_auto_reviewer.Prelude.Lists.{All}
use pr_auto_reviewer.Prelude.Sets.{contains, union, contains-union, contains-append}
use pr_auto_reviewer.Prelude.Text.{truthy}
use pr_auto_reviewer.Prelude.Words.{append, sorted, contains-sorted}
use pr_auto_reviewer.Domain.AllowList.{
  RepositoryAllowList, has_colon, prefixed, normalize_platform, candidates_for_entry,
  candidates_for, candidates, allows_normalized, allows, allows_every_repository, has_entries,
  normalize_entry,
}

partition-prefixed :
    (p r : String) → has_colon p ≡ false → partition b':' (prefixed p r) ≡ some (p, r)
unfolding partition append
partition-prefixed String.[] r h = refl
partition-prefixed (String.◌∷◌ c p) r h = ground (arith, partition-prefixed p r)

parts : Option (String × String) → String × String
parts none = ("", "")
parts (some pair) = pair

prefixed_parts :
    (q e p r : String)
    → has_colon q ≡ false
    → has_colon p ≡ false
    → prefixed q e ≡ prefixed p r
    → (q ≡ p) × (e ≡ r)
unfolding parts
prefixed_parts q e p r hq hp same =
    let pairs =
      sym (partition-prefixed q e hq) ∙ ap (partition b':') same ∙ partition-prefixed p r hp in
    (ap (λ o. (parts o).0) pairs, ap (λ o. (parts o).1) pairs)

-- Two prefixed names are the same only part by part.
prefixed_eq :
    (q e p r : String)
    → has_colon q ≡ false
    → has_colon p ≡ false
    → (prefixed q e == prefixed p r) ≡ (q == p) && (e == r)
prefixed_eq q e p r hq hp = ground (
  arith,
  prefixed_parts q e p r hq hp,
  eq_iff (prefixed q e) (prefixed p r),
  eq_iff q p,
  eq_iff e r,
)

contains-prefixed :
    (p r e : String) (platforms : List String)
    → has_colon p ≡ false
    → All (λ q. has_colon q ≡ false) platforms
    → contains (prefixed p r) (map (λ q. prefixed q e) platforms) ≡ contains p platforms && (e == r)
unfolding contains
contains-prefixed p r e [] h hs = refl
contains-prefixed p r e (q ∷ qs) h (hq, hs) =
    ground (arith, prefixed_eq q e p r hq h, contains-prefixed p r e qs h hs)

-- whether an entry stands for the name `p:r`
covers_name : String → String → String → Bool
covers_name p r e = e == prefixed p r || e == r

module _ (p r : String) (hp : has_colon p ≡ false) (hr : has_colon r ≡ false)
    (platforms : List String) (known : contains p platforms ≡ true)
    (bare : All (λ q. has_colon q ≡ false) platforms) where
  contains-candidates_for_entry :
      (e : String) → contains (prefixed p r) (candidates_for_entry e platforms) ≡ covers_name p r e
  unfolding candidates_for_entry covers_name contains
  contains-candidates_for_entry e = elim (Bool-cases (has_colon e)) [
    | inl h ↦ ground (arith, partition-prefixed p r hp, eq_iff e r, eq_iff e (prefixed p r))
    | inr h ↦ ground (
      arith,
      partition-prefixed p r hp,
      eq_iff e r,
      eq_iff e (prefixed p r),
      contains-prefixed p r e platforms hp bare,
    )
  ]

  contains-candidates_for :
      (es : List String)
      → contains (prefixed p r) (candidates_for es platforms)
        ≡ contains (prefixed p r) es || contains r es
  unfolding candidates_for contains covers_name
  contains-candidates_for [] = refl
  contains-candidates_for (e ∷ es) = ground (
    arith,
    contains-append (prefixed p r) (candidates_for_entry e platforms) (candidates_for es platforms),
    contains-candidates_for_entry e,
    contains-candidates_for es,
  )

truthy-prefixed : (p r : String) → truthy (prefixed p r) ≡ true
unfolding append
truthy-prefixed String.[] r = refl
truthy-prefixed (String.◌∷◌ c p) r = refl

allows-prefixed :
    (l : RepositoryAllowList) (p r : String)
    → has_colon p ≡ false
    → allows_normalized l (prefixed p r)
      ≡ contains (prefixed p r) l.allowed_repositories || contains r l.allowed_repositories
unfolding allows_normalized
allows-prefixed l p r hp = ground (arith, truthy-prefixed p r, partition-prefixed p r hp)

no_entries : (es : List String) → not (has_entries es) ≡ true → es ≡ []
no_entries [] h = refl
no_entries (e ∷ es) h = ground (arith, h)

no_candidates :
    (es platforms : List String) → es ≡ [] → sorted (union [] (candidates_for es platforms)) ≡ []
unfolding candidates_for sorted union
no_candidates es platforms e =
    subst (λ es. sorted (union [] (candidates_for es platforms)) ≡ []) (sym e) refl

-- With an empty list, which allows every repository, there are no candidates. With a list that has
-- entries, the candidates for some platforms are what the list allows: the name of a repository, with
-- the prefix of one of the platforms, is a candidate exactly if `allows` holds of it. The names of the
-- platforms, and that of the repository, have no colon of their own, and the prefixed name is
-- normalized.
pub contains-candidates :
    (l : RepositoryAllowList) (platform : String) (platforms : List String) (p r : String)
    → contains p (map normalize_platform (platform ∷ platforms)) ≡ true
    → All (λ q. has_colon q ≡ false) (map normalize_platform (platform ∷ platforms))
    → has_colon p ≡ false
    → has_colon r ≡ false
    → normalize_entry (prefixed p r) ≡ prefixed p r
    → ((allows_every_repository l ≡ true)
        × (candidates l (platform ∷ platforms) ≡ [])
        × (allows l (prefixed p r) ≡ true))
      ⊎ ((allows_every_repository l ≡ false)
          × (contains (prefixed p r) (candidates l (platform ∷ platforms))
              ≡ allows l (prefixed p r)))
unfolding candidates contains allows
contains-candidates l platform platforms p r known bare hp hr normal =
    let names = map normalize_platform (platform ∷ platforms) in
    let found = candidates_for l.allowed_repositories names in
    elim (Bool-cases (allows_every_repository l)) [
      | inl every ↦ inl (
        every,
        no_candidates l.allowed_repositories names (no_entries l.allowed_repositories every),
        rw every refl,
      )
      | inr some_ ↦ inr (
        some_,
        contains-sorted (prefixed p r) (union [] found)
            ∙ contains-union (prefixed p r) [] found
            ∙ contains-candidates_for p r hp hr names known bare l.allowed_repositories
            ∙ sym (allows-prefixed l p r hp)
            ∙ sym (rw (some_, normal) refl),
      )
    ]
