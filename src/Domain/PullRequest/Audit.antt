-- ===== src/Domain/PullRequest/Audit.antt =====
-- `apply_audit_result`: what it leaves for each item.
use pr_auto_reviewer.Prelude.{
  String, true, ◌≡◌, refl, sym, ap, subst, ◌∙◌, List, [], ◌∷◌, ◌++◌, none, some, ◌==◌,
  if◌then◌else◌, is_some, some_or_none, Bool-cases, inl, inr,
}
use mathlib.Core.List.{foldl}
use pr_auto_reviewer.Prelude.Lists.{All}
use pr_auto_reviewer.Prelude.Sets.{Distinct, union}
use pr_auto_reviewer.Prelude.Dict.{lookup}
use pr_auto_reviewer.Prelude.Result.{ok, fold_m, fold_m-eq-foldl, ok-injective}
use pr_auto_reviewer.Domain.Lifecycle
use pr_auto_reviewer.Domain.Lifecycle.{ReviewItemLifecycle, audit, audit_target}
use pr_auto_reviewer.Domain.Lifecycle.Moves.{IsValid, moved}
use pr_auto_reviewer.Domain.PullRequest.{PullRequest, item_ids, find_lifecycle}
use pr_auto_reviewer.Domain.PullRequest.Lifecycles.{
  Projection, apply_candidate, apply_audit_result, index_by_id, dismissed_ids,
}
use pr_auto_reviewer.Domain.PullRequest.Index.{
  is_some-find_lifecycle, lookup-index, index_by_id-IsIndex, Collected, collect_total,
}
use pr_auto_reviewer.Domain.PullRequest.Index.{IsSound}
use pr_auto_reviewer.Domain.PullRequest.Candidates.{
  audited_by, applied, IsProjection, apply_candidate-eq-ok, lookup-applied, order-applied,
}

-- What `apply_audit_result` returns, item by item.
pub record Audited (pr : PullRequest) (cs : List ReviewItemLifecycle) (pr' : PullRequest)
    : Type 0 where
  pub lifecycles :
      (k : String)
      → find_lifecycle k pr'.lifecycles ≡ audited_by k (find_lifecycle k pr.lifecycles) cs
  pub fresh : List String
  pub order : item_ids pr'.lifecycles ≡ item_ids pr.lifecycles ++ fresh
  pub dismissed :
      pr'.dismissed_item_ids ≡ union pr.dismissed_item_ids (dismissed_ids pr'.lifecycles)
  pub sound : IsSound pr'
  pub reviews : pr'.reviews ≡ pr.reviews
  pub head_sha : pr'.head_sha ≡ pr.head_sha

module _ (pr : PullRequest) (cs : List ReviewItemLifecycle) (s : IsSound pr)
    (v : All IsValid cs) where
  abbrev start : Projection
  start = record { by_id = index_by_id [] pr.lifecycles; order = item_ids pr.lifecycles }

  start-IsProjection : IsProjection start
  start-IsProjection = record {
    index = index_by_id-IsIndex pr.lifecycles s.distinct s.valid;
    distinct = s.distinct;
    covers = λ k.
        sym (is_some-find_lifecycle k pr.lifecycles)
        ∙ ap is_some (sym (lookup-index k pr.lifecycles s.distinct));
  }

  abbrev final : Projection
  final = foldl applied start cs

  loop : (fold_m apply_candidate start cs ≡ ok final) × IsProjection final
  loop =
      fold_m-eq-foldl IsProjection IsValid apply_candidate applied apply_candidate-eq-ok start cs
        start-IsProjection v

  read_back : Collected final.by_id final.order
  read_back = collect_total final.by_id loop.1.index final.order (λ k m. sym (loop.1.covers k) ∙ m)

  abbrev result : PullRequest
  result = record pr {
    lifecycles = read_back.lifecycles;
    dismissed_item_ids = union pr.dismissed_item_ids (dismissed_ids read_back.lifecycles);
  }

  result_finds :
      (k : String)
      → find_lifecycle k read_back.lifecycles ≡ audited_by k (find_lifecycle k pr.lifecycles) cs
  result_finds k =
      read_back.finds k
      ∙ ap (λ b. if b then lookup k final.by_id else none) (loop.1.covers k)
      ∙ some_or_none (lookup k final.by_id)
      ∙ lookup-applied k start cs
      ∙ ap (λ o. audited_by k o cs) (lookup-index k pr.lifecycles s.distinct)

  returns : apply_audit_result pr cs ≡ ok result
  unfolding apply_audit_result
  returns = rw (loop.0, read_back.returns)

  apply_audit_result-Audited : Audited pr cs result
  apply_audit_result-Audited =
      let (fresh, e) = order-applied start cs in
      record {
        lifecycles = result_finds;
        fresh = fresh;
        order = read_back.ids ∙ e;
        dismissed = refl;
        sound = record {
          distinct = subst Distinct (sym read_back.ids) loop.1.distinct;
          valid = read_back.valid;
          head_sha = s.head_sha;
        };
        reviews = refl;
        head_sha = refl;
      }

-- On a sound pull request and lifecycles that the constructor made, `apply_audit_result` raises no
-- error (in particular no KeyError). Each item has the lifecycle that `audited_by` computes for it
-- from the candidates alone; the known items keep their places and new ones come behind; the dismissed
-- IDs grow by those whose lifecycle is DISMISSED; the result is sound, with the same reviews and head.
pub apply_audit_result_lem :
    (pr : PullRequest) (cs : List ReviewItemLifecycle)
    → IsSound pr
    → All IsValid cs
    → (pr' : PullRequest) × (apply_audit_result pr cs ≡ ok pr') × Audited pr cs pr'
apply_audit_result_lem pr cs s v =
    (result pr cs s v, returns pr cs s v, apply_audit_result-Audited pr cs s v)

audited_by-terminal :
    (k : String) (l : ReviewItemLifecycle) (cs : List ReviewItemLifecycle)
    → Lifecycle.is_terminal l ≡ true
    → (l' : ReviewItemLifecycle) × (audited_by k (some l) cs ≡ some l') × (l'.status ≡ l.status)
unfolding moved
audited_by-terminal k l [] t = (l, refl, refl)
audited_by-terminal k l (c ∷ cs) t = elim (Bool-cases (c.item_id == k)) [
  | inl same ↦
      rw (same, t)
        (audited_by-terminal k (moved l.status l c.last_audited_sha c.status_explanation) cs t)
  | inr other ↦ rw other (audited_by-terminal k l cs t)
]

-- An audit result never reopens an item: if a sound pull request has a RESOLVED or DISMISSED
-- lifecycle for an item, then after `apply_audit_result`, whatever the candidates say, the item has a
-- lifecycle with the same status.
pub apply_audit_result-terminal :
    (pr pr' : PullRequest) (cs : List ReviewItemLifecycle) (k : String) (l : ReviewItemLifecycle)
    → IsSound pr
    → All IsValid cs
    → apply_audit_result pr cs ≡ ok pr'
    → find_lifecycle k pr.lifecycles ≡ some l
    → Lifecycle.is_terminal l ≡ true
    → (l' : ReviewItemLifecycle) × (find_lifecycle k pr'.lifecycles ≡ some l')
      × (l'.status ≡ l.status)
apply_audit_result-terminal pr pr' cs k l s v h found t =
    let (l', e, kept) = audited_by-terminal k l cs t in
    let same : result pr cs s v ≡ pr' = ok-injective _ _ (sym (returns pr cs s v) ∙ h) in
    (
      l',
      ap (λ (q : PullRequest). find_lifecycle k q.lifecycles) (sym same)
          ∙ result_finds pr cs s v k
          ∙ ap (λ o. audited_by k o cs) found
          ∙ e,
      kept,
    )
