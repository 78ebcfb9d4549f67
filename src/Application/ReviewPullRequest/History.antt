-- ===== src/Application/ReviewPullRequest/History.antt =====
-- review_pull_request_service.py, `_audit_history`: the audit of what earlier reviews found, and what
-- stands in for it when the audit is missing or leaves a record out
pub mod Kept
pub mod Carried
use pr_auto_reviewer.Prelude.{
  String, Bool, true, false, List, [], ◌∷◌, ◌++◌, Option, none, some, not, map, if◌then◌else◌,
}
use pr_auto_reviewer.Prelude.Lists.{any}
use pr_auto_reviewer.Prelude.Sets.{contains}
use pr_auto_reviewer.Prelude.Dict.{lookup}
use pr_auto_reviewer.Prelude.Result.{Result, ok, raise, ◌>>=◌}
use pr_auto_reviewer.Prelude.Text.{truthy}
use pr_auto_reviewer.Domain.Status.{opened}
use pr_auto_reviewer.Domain.Item.{ReviewItem}
use pr_auto_reviewer.Domain.Item
use pr_auto_reviewer.Domain.Lifecycle
use pr_auto_reviewer.Domain.Lifecycle.{ReviewItemLifecycle, audit}
use pr_auto_reviewer.Domain.PullRequest.{PullRequest, historical_items, historical_suggestions}
use pr_auto_reviewer.Domain.PullRequest.Lifecycles.{index_by_id}
use pr_auto_reviewer.Application.ReviewPullRequest.{ReviewAuditResult}
use pr_auto_reviewer.Application.ReviewPullRequest.Merge.{named_ids}

abbrev pub all_ids : List ReviewItem → List String
all_ids items = map (λ item. item.id) items

unfoldable pub audit_covers_history : PullRequest → ReviewAuditResult → Bool
audit_covers_history pr result =
    let expected = all_ids (historical_items pr ++ historical_suggestions pr) in
    let actual = named_ids (result.items ++ result.suggestions) in
    if any (λ id. not (truthy id)) expected
    then false
    else not (any (λ id. not (contains id actual)) expected)

abbrev pub unavailable : String
unavailable = "Remediation audit was unavailable; record remains open."

-- the tuple of lifecycles
unfoldable pub carry_lifecycles :
    String → List ReviewItemLifecycle → Result (List ReviewItemLifecycle)
carry_lifecycles audit_sha [] = ok []
carry_lifecycles audit_sha (l ∷ ls) = do
  carried ← if Lifecycle.is_active l then audit l audit_sha true false unavailable else ok l
  rest ← carry_lifecycles audit_sha ls
  ok (carried ∷ rest)

abbrev pub project_record : ReviewItem → Option ReviewItemLifecycle → ReviewItem
project_record item none = record item {
  status = if Item.is_active item then opened else item.status;
}
project_record item (some l) = record item {
  status = l.status;
  status_explanation = l.status_explanation;
}

unfoldable pub project_fail_closed :
    List ReviewItem → List (String × ReviewItemLifecycle) → List ReviewItem
project_fail_closed records lifecycles =
    map (λ item. project_record item (lookup item.id lifecycles)) records

unfoldable pub fail_closed_history : PullRequest → String → Result ReviewAuditResult
unfolding project_fail_closed
fail_closed_history pr audit_sha = do
  lifecycles ← carry_lifecycles audit_sha pr.lifecycles
  let by_id = index_by_id [] lifecycles
  ok (record {
    items = project_fail_closed (historical_items pr) by_id;
    suggestions = project_fail_closed (historical_suggestions pr) by_id;
    lifecycles = lifecycles;
  })

-- `dispatched` is what the command bus returned: `none` where there is no bus or no clone, or where it
-- returned no audit result.
unfoldable pub audit_history :
    PullRequest → String → Option ReviewAuditResult → Result ReviewAuditResult
audit_history pr head_sha none = fail_closed_history pr head_sha
audit_history pr head_sha (some result) =
    if not (audit_covers_history pr result) then fail_closed_history pr head_sha else ok result
