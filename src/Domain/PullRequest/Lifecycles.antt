-- ===== src/Domain/PullRequest/Lifecycles.antt =====
-- `add_review`, `apply_audit_result` and `dismiss_review_items` of domain/entities/pull_request.py.
use pr_auto_reviewer.Prelude.{
  String, Bool, true, false, List, [], ◌∷◌, ◌++◌, Option, none, some, not, ◌&&◌, if◌then◌else◌,
}
use pr_auto_reviewer.Prelude.Sets.{contains, add, union}
use pr_auto_reviewer.Prelude.Dict.{lookup, insert}
use pr_auto_reviewer.Prelude.Result.{Result, ok, raise, key_error, ◌>>=◌, fold_m}
use pr_auto_reviewer.Prelude.Text.{truthy}
use pr_auto_reviewer.Domain.Status.{ReviewItemStatus, dismissed}
use pr_auto_reviewer.Domain.Identity.{CommitSha}
use pr_auto_reviewer.Domain.Item.{ReviewItem}
use pr_auto_reviewer.Domain.Review.{CodeReview}
use pr_auto_reviewer.Domain.Lifecycle
use pr_auto_reviewer.Domain.Lifecycle.{ReviewItemLifecycle, first_appearance, audit, dismiss}
use pr_auto_reviewer.Domain.PullRequest.{PullRequest, records, item_ids}

-- The variables of the loop in `add_review`.
pub record Tracking : Type 0 where
  pub known : List String
  pub lifecycles : List ReviewItemLifecycle

unfoldable pub track_item : String → Tracking → ReviewItem → Result Tracking
track_item sha t item =
    if truthy item.id && not (contains item.id t.known)
    then (do
      l ← first_appearance item.id sha item.status_explanation
      ok (record { known = add item.id t.known; lifecycles = t.lifecycles ++ l ∷ [] }))
    else ok t

unfoldable pub add_review : PullRequest → CodeReview → CommitSha → Result PullRequest
unfolding track_item fold_m
add_review pr review sha = do
  t ←
      fold_m (track_item sha.value)
        (record { known = union [] (item_ids pr.lifecycles); lifecycles = pr.lifecycles })
        (records review)
  ok (record pr {
    reviews = pr.reviews ++ review ∷ [];
    head_sha = sha;
    dismissed_item_ids = [];
    lifecycles = t.lifecycles;
  })

-- `{lifecycle.item_id: lifecycle for lifecycle in lifecycles}`
unfoldable pub index_by_id :
    List (String × ReviewItemLifecycle)
    → List ReviewItemLifecycle
    → List (String × ReviewItemLifecycle)
unfolding insert
index_by_id by_id [] = by_id
index_by_id by_id (l ∷ ls) = index_by_id (insert l.item_id l by_id) ls

-- `tuple(by_id[item_id] for item_id in order)`
unfoldable pub collect :
    List (String × ReviewItemLifecycle) → List String → Result (List ReviewItemLifecycle)
unfolding lookup
collect by_id [] = ok []
collect by_id (k ∷ ks) = do
  l ← elim (lookup k by_id) [ none ↦ raise key_error | some l ↦ ok l ]
  ls ← collect by_id ks
  ok (l ∷ ls)

-- The variables of the loop in `apply_audit_result`.
pub record Projection : Type 0 where
  pub by_id : List (String × ReviewItemLifecycle)
  pub order : List String

-- What the loop does with a candidate, by the lifecycle that its item has.
unfoldable pub place_candidate :
    Projection → ReviewItemLifecycle → Option ReviewItemLifecycle → Result Projection
place_candidate p candidate none = ok (record {
  by_id = insert candidate.item_id candidate p.by_id;
  order = p.order ++ candidate.item_id ∷ [];
})
place_candidate p candidate (some existing) =
    if Lifecycle.is_terminal existing
    then (do
      l ← audit existing candidate.last_audited_sha true false candidate.status_explanation
      ok (record p { by_id = insert candidate.item_id l p.by_id }))
    else ok (record p { by_id = insert candidate.item_id candidate p.by_id })

unfoldable pub apply_candidate : Projection → ReviewItemLifecycle → Result Projection
unfolding place_candidate lookup
apply_candidate p candidate = place_candidate p candidate (lookup candidate.item_id p.by_id)

-- `lifecycle.status is ReviewItemStatus.DISMISSED`
abbrev pub is_dismissed : ReviewItemStatus → Bool
is_dismissed dismissed = true
is_dismissed _ = false

unfoldable pub dismissed_ids : List ReviewItemLifecycle → List String
dismissed_ids [] = []
dismissed_ids (l ∷ ls) =
    let rest = dismissed_ids ls in if is_dismissed l.status then l.item_id ∷ rest else rest

-- `apply_audit_result`, of the lifecycles of the result
unfoldable pub apply_audit_result : PullRequest → List ReviewItemLifecycle → Result PullRequest
unfolding fold_m apply_candidate collect index_by_id union dismissed_ids
apply_audit_result pr candidates = do
  p ←
      fold_m apply_candidate
        (record { by_id = index_by_id [] pr.lifecycles; order = item_ids pr.lifecycles }) candidates
  lifecycles ← collect p.by_id p.order
  ok (record pr {
    lifecycles = lifecycles;
    dismissed_item_ids = union pr.dismissed_item_ids (dismissed_ids lifecycles);
  })

-- One round of the loop in `dismiss_review_items`, by the lifecycle of the item.
unfoldable pub dismiss_found :
    String
    → List (String × ReviewItemLifecycle)
    → String
    → Option ReviewItemLifecycle
    → Result (List (String × ReviewItemLifecycle))
dismiss_found sha by_id item_id none = ok by_id
dismiss_found sha by_id item_id (some l) =
    if Lifecycle.is_active l
    then (do l' ← dismiss l sha "Dismissed by command"; ok (insert item_id l' by_id))
    else ok by_id

unfoldable pub dismiss_item :
    String
    → List (String × ReviewItemLifecycle)
    → String
    → Result (List (String × ReviewItemLifecycle))
unfolding dismiss_found lookup
dismiss_item sha by_id item_id = dismiss_found sha by_id item_id (lookup item_id by_id)

unfoldable pub dismiss_review_items : PullRequest → List String → Result PullRequest
unfolding fold_m dismiss_item collect index_by_id union
dismiss_review_items pr [] = ok pr
dismiss_review_items pr (k ∷ ks) = do
  by_id ← fold_m (dismiss_item pr.head_sha.value) (index_by_id [] pr.lifecycles) (k ∷ ks)
  lifecycles ← collect by_id (item_ids pr.lifecycles)
  ok (record pr {
    dismissed_item_ids = union pr.dismissed_item_ids (k ∷ ks);
    lifecycles = lifecycles;
  })
