-- ===== src/Domain/PullRequest/Derive.antt =====
-- `with_derived_lifecycles` of domain/entities/pull_request.py. The loop over a set difference goes by the
-- order of the list that stands for the set.
use pr_auto_reviewer.Prelude.{String, true, false, List, [], ◌∷◌, ◌++◌, not, ◌||◌, if◌then◌else◌}
use pr_auto_reviewer.Prelude.Sets.{contains, add, difference}
use pr_auto_reviewer.Prelude.Result.{Result, ok, ◌>>=◌, fold_m}
use pr_auto_reviewer.Prelude.Text.{truthy}
use pr_auto_reviewer.Domain.Status.{ReviewItemStatus, created, opened, resolved, dismissed}
use pr_auto_reviewer.Domain.Item.{ReviewItem}
use pr_auto_reviewer.Domain.Lifecycle.{ReviewItemLifecycle, first_appearance, audit, dismiss}
use pr_auto_reviewer.Domain.PullRequest.{
  PullRequest, has_reviews, has_lifecycles, review_items, review_suggestions,
}
use pr_auto_reviewer.Domain.PullRequest.Lifecycles.{Tracking}

-- the branches of `_derive_lifecycles` on an item's status
unfoldable pub derive_by_status :
    ReviewItemStatus → String → String → ReviewItemLifecycle → Result ReviewItemLifecycle
derive_by_status dismissed sha explanation l = dismiss l sha "Dismissed by command"
derive_by_status resolved sha explanation l = audit l sha true true explanation
derive_by_status opened sha explanation l = audit l sha true false explanation
derive_by_status created sha explanation l = ok l

unfoldable pub derive_item : String → Tracking → ReviewItem → Result Tracking
unfolding derive_by_status contains add
derive_item sha t item = if not (truthy item.id) || contains item.id t.known then ok t else do
  l ← first_appearance item.id sha item.status_explanation
  l' ← derive_by_status item.status sha item.status_explanation l
  ok (record { known = add item.id t.known; lifecycles = t.lifecycles ++ l' ∷ [] })

unfoldable pub derive_dismissed :
    String → List ReviewItemLifecycle → String → Result (List ReviewItemLifecycle)
derive_dismissed sha ls item_id = do
  l ← first_appearance item_id sha "Dismissed by command"
  l' ← dismiss l sha "Dismissed by command"
  ok (ls ++ l' ∷ [])

unfoldable pub derive_lifecycles : PullRequest → Result (List ReviewItemLifecycle)
unfolding fold_m derive_item derive_dismissed difference review_items review_suggestions
derive_lifecycles pr = do
  t ←
      fold_m (derive_item pr.head_sha.value) (record { known = []; lifecycles = [] })
        (review_items pr.reviews ++ review_suggestions pr.reviews)
  fold_m (derive_dismissed pr.head_sha.value) t.lifecycles
      (difference pr.dismissed_item_ids t.known)

unfoldable pub with_derived_lifecycles : PullRequest → Result PullRequest
unfolding derive_lifecycles
with_derived_lifecycles pr =
    if has_lifecycles pr.lifecycles || not (has_reviews pr.reviews)
    then ok pr
    else do lifecycles ← derive_lifecycles pr; ok (record pr { lifecycles = lifecycles })
