-- ===== src/Domain/PullRequest/Candidates.antt =====
-- The loop of `apply_audit_result`: one candidate, and all of them.
use pr_auto_reviewer.Prelude.{
  String, true, false, ◌≡◌, refl, sym, ap, ◌∙◌, List, [], ◌∷◌, ◌++◌, Option, none, some, ◌==◌,
  eq_iff, arith, if◌then◌else◌, is_some, Bool-cases, inl, inr, ◌⊎◌, append-nil, append_assoc,
}
use mathlib.Core.List.{foldl}
use pr_auto_reviewer.Prelude.Sets.{contains, Distinct, contains-append, snoc-Distinct}
use pr_auto_reviewer.Prelude.Dict.{lookup, insert, lookup-insert}
use pr_auto_reviewer.Prelude.Result.{ok}
use pr_auto_reviewer.Domain.Lifecycle
use pr_auto_reviewer.Domain.Lifecycle.{ReviewItemLifecycle, audit, audit_target}
use pr_auto_reviewer.Domain.Lifecycle.Moves.{IsValid, moved, audit_terminal, moved-IsValid}
use pr_auto_reviewer.Domain.PullRequest.Lifecycles.{Projection, place_candidate, apply_candidate}
use pr_auto_reviewer.Domain.PullRequest.Index.{Fits, IsIndex, insert-IsIndex}

-- The lifecycle that a candidate leaves where its item has `o`.
abbrev pub audited : Option ReviewItemLifecycle → ReviewItemLifecycle → ReviewItemLifecycle
audited none c = c
audited (some l) c =
    if Lifecycle.is_terminal l then moved l.status l c.last_audited_sha c.status_explanation else c

-- The lifecycle of item `k` after all candidates, from `o`.
abbrev pub audited_by :
    String → Option ReviewItemLifecycle → List ReviewItemLifecycle → Option ReviewItemLifecycle
audited_by k o [] = o
audited_by k o (c ∷ cs) = audited_by k (if c.item_id == k then some (audited o c) else o) cs

pub applied : Projection → ReviewItemLifecycle → Projection
applied p c = record {
  by_id = insert c.item_id (audited (lookup c.item_id p.by_id) c) p.by_id;
  order = if is_some (lookup c.item_id p.by_id) then p.order else p.order ++ c.item_id ∷ [];
}

-- The loop's invariant.
pub record IsProjection (p : Projection) : Type 0 where
  pub index : IsIndex p.by_id
  pub distinct : Distinct p.order
  pub covers : (k : String) → contains k p.order ≡ is_some (lookup k p.by_id)

audited-Fits :
    (o : Option ReviewItemLifecycle) (c : ReviewItemLifecycle)
    → Fits c.item_id o
    → IsValid c
    → ((audited o c).item_id ≡ c.item_id) × IsValid (audited o c)
unfolding moved
audited-Fits none c f v = (refl, v)
audited-Fits (some l) c f v = elim (Bool-cases (Lifecycle.is_terminal l)) [
  | inl t ↦
      rw t (
        f.0,
        moved-IsValid l f.1 c.last_audited_sha c.status_explanation l.status v.last_audited_sha,
      )
  | inr t ↦ rw t (refl, v)
]

place_candidate-eq-ok :
    (p : Projection) (c : ReviewItemLifecycle) (o : Option ReviewItemLifecycle)
    → lookup c.item_id p.by_id ≡ o
    → Fits c.item_id o
    → IsValid c
    → place_candidate p c o ≡ ok (applied p c)
unfolding place_candidate applied
place_candidate-eq-ok p c none e f v = rw e
place_candidate-eq-ok p c (some l) e f v = elim (Bool-cases (Lifecycle.is_terminal l)) [
  | inl t ↦
      rw (e, t, audit_terminal l f.1 c.last_audited_sha c.status_explanation t v.last_audited_sha)
  | inr t ↦ rw (e, t)
]

applied-IsProjection :
    (p : Projection) (c : ReviewItemLifecycle)
    → IsProjection p
    → IsValid c
    → IsProjection (applied p c)
unfolding applied contains
applied-IsProjection p c h v =
    let (named, valid) = audited-Fits (lookup c.item_id p.by_id) c (h.index.fits c.item_id) v in
    record {
      index = insert-IsIndex p.by_id c.item_id _ h.index named valid;
      distinct = applied_distinct (Bool-cases (is_some (lookup c.item_id p.by_id)));
      covers = λ k. ground (
        arith,
        h.covers k,
        lookup-insert k c.item_id (audited (lookup c.item_id p.by_id) c) p.by_id,
        contains-append k p.order (c.item_id ∷ []),
        eq_iff c.item_id k,
      );
    }
  where
    applied_distinct :
        (is_some (lookup c.item_id p.by_id) ≡ true) ⊎ (is_some (lookup c.item_id p.by_id) ≡ false)
        → Distinct (applied p c).order
    applied_distinct (inl old) = rw old h.distinct
    applied_distinct (inr new) =
        rw new (snoc-Distinct c.item_id p.order h.distinct (h.covers c.item_id ∙ new))

pub apply_candidate-eq-ok :
    (p : Projection) (c : ReviewItemLifecycle)
    → IsProjection p
    → IsValid c
    → (apply_candidate p c ≡ ok (applied p c)) × IsProjection (applied p c)
unfolding apply_candidate
apply_candidate-eq-ok p c h v = (
  place_candidate-eq-ok p c (lookup c.item_id p.by_id) refl (h.index.fits c.item_id) v,
  applied-IsProjection p c h v,
)

lookup-applied_one :
    (k : String) (p : Projection) (c : ReviewItemLifecycle)
    → lookup k (applied p c).by_id
      ≡ (if c.item_id == k then some (audited (lookup k p.by_id) c) else lookup k p.by_id)
unfolding applied
lookup-applied_one k p c = ground (
  arith,
  lookup-insert k c.item_id (audited (lookup c.item_id p.by_id) c) p.by_id,
  eq_iff c.item_id k,
)

pub lookup-applied :
    (k : String) (p : Projection) (cs : List ReviewItemLifecycle)
    → lookup k (foldl applied p cs).by_id ≡ audited_by k (lookup k p.by_id) cs
lookup-applied k p [] = refl
lookup-applied k p (c ∷ cs) =
    lookup-applied k (applied p c) cs ∙ ap (λ o. audited_by k o cs) (lookup-applied_one k p c)

-- Items keep their places, and new ones come behind.
order-applied_one :
    (p : Projection) (c : ReviewItemLifecycle)
    → (fresh : List String) × ((applied p c).order ≡ p.order ++ fresh)
unfolding applied
order-applied_one p c = elim (Bool-cases (is_some (lookup c.item_id p.by_id))) [
  | inl old ↦ ([], rw old (sym (append-nil p.order)))
  | inr new ↦ (c.item_id ∷ [], rw new)
]

pub order-applied :
    (p : Projection) (cs : List ReviewItemLifecycle)
    → (fresh : List String) × ((foldl applied p cs).order ≡ p.order ++ fresh)
order-applied p [] = ([], sym (append-nil p.order))
order-applied p (c ∷ cs) =
    let (fresh, e) = order-applied_one p c in
    let (rest, e') = order-applied (applied p c) cs in
    (fresh ++ rest, e' ∙ ap (λ o. o ++ rest) e ∙ append_assoc p.order fresh rest)
