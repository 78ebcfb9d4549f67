-- ===== src/Application/ReviewPullRequest/History/Carried.antt =====
-- review_pull_request_service.py: the results of `_audit_history` and `_fail_closed_history`
use pr_auto_reviewer.Prelude.{String, true, false, ◌++◌, Option, none, some, ◌≡◌, ◌⊎◌}
use pr_auto_reviewer.Prelude.Sets.{contains}
use pr_auto_reviewer.Prelude.Text.{truthy}
use pr_auto_reviewer.Domain.Lifecycle
use pr_auto_reviewer.Domain.Lifecycle.{ReviewItemLifecycle, audit, audit_target}
use pr_auto_reviewer.Domain.PullRequest.{
  PullRequest, find_lifecycle, item_ids, historical_items, historical_suggestions,
}
use pr_auto_reviewer.Application.ReviewPullRequest.{ReviewAuditResult}
use pr_auto_reviewer.Application.ReviewPullRequest.Merge.{named_ids}
use pr_auto_reviewer.Application.ReviewPullRequest.History.{all_ids}
use pr_auto_reviewer.Application.ReviewPullRequest.History.Kept.{
  Pairwise, KeptLifecycle, KeptRecord,
}

-- What stands in for a missing audit.
pub record IsCarried (pr : PullRequest) (result : ReviewAuditResult) : Type 0 where
  pub items : all_ids result.items ≡ all_ids (historical_items pr)
  pub suggestions : all_ids result.suggestions ≡ all_ids (historical_suggestions pr)
  pub lifecycles : item_ids result.lifecycles ≡ item_ids pr.lifecycles
  pub kept_items : Pairwise (KeptRecord pr) (historical_items pr) result.items
  pub kept_suggestions : Pairwise (KeptRecord pr) (historical_suggestions pr) result.suggestions
  pub kept_lifecycles : Pairwise KeptLifecycle pr.lifecycles result.lifecycles
  pub never_resolves :
      (k : String) (l : ReviewItemLifecycle)
      → find_lifecycle k result.lifecycles ≡ some l
      → Lifecycle.is_terminal l ≡ true
      → find_lifecycle k pr.lifecycles ≡ some l

-- Every named record of the history is in the result.
abbrev pub Covers : PullRequest → ReviewAuditResult → Type 0
Covers pr result =
    (k : String)
    → truthy k ≡ true
    → contains k (all_ids (historical_items pr ++ historical_suggestions pr)) ≡ true
    → contains k (named_ids (result.items ++ result.suggestions)) ≡ true

-- A record of the history has no ID, or the audit left it out.
abbrev pub Misses : PullRequest → Option ReviewAuditResult → Type 0
Misses pr none = Unit
Misses pr (some audited) =
    (k : String) × (contains k (all_ids (historical_items pr ++ historical_suggestions pr)) ≡ true)
    × ((truthy k ≡ false) ⊎ (contains k (named_ids (audited.items ++ audited.suggestions)) ≡ false))
