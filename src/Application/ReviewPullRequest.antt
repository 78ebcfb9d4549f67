-- ===== src/Application/ReviewPullRequest.antt =====
-- application/services/review_pull_request_service.py: when a pull request is reviewed, and what becomes
-- of a review before it is published.
--
-- The review itself, the audit behind the command bus and the publisher are ports.
pub mod Settle
pub mod Merge
pub mod Conclude
pub mod History
pub mod Again
use pr_auto_reviewer.Prelude.{
  ℕ, String, Bool, true, false, List, [], ◌∷◌, ◌++◌, Option, none, some, not, ◌&&◌, ◌||◌, ltb, ◌==◌,
  nat_eq, map, if◌then◌else◌,
}
use pr_auto_reviewer.Prelude.Lists.{any, keep, first}
use pr_auto_reviewer.Prelude.Sets.{contains, add, union}
use pr_auto_reviewer.Prelude.Result.{Result, ok, raise, Error, ◌>>=◌}
use pr_auto_reviewer.Prelude.Text.{truthy, or_else}
use pr_auto_reviewer.Prelude.Words.{append, join_lines, squeeze, sorted}
use pr_auto_reviewer.Domain.Status.{ReviewItemStatus, created, opened}
use pr_auto_reviewer.Domain.Severity
use pr_auto_reviewer.Domain.Identity.{CommitSha, PullRequestId}
use pr_auto_reviewer.Domain.Item.{ReviewItem, is_open_blocking}
use pr_auto_reviewer.Domain.Verdict.{ReviewVerdict, changes_requested, is_changes_requested}
use pr_auto_reviewer.Domain.Review.{CodeReview, new_review}
use pr_auto_reviewer.Domain.Lifecycle.{ReviewItemLifecycle}
use pr_auto_reviewer.Domain.PullRequest.{
  PullRequest, new_pull_request, record_review_request_event, record_platform_review,
  with_unresolved_blocking, with_resolved_blocking,
}
use pr_auto_reviewer.Domain.PullRequest

pub record ReviewPullRequestCommand : Type 0 where
  pub pr_id : PullRequestId
  pub head_sha : CommitSha
  pub title : String
  pub force : Bool
  pub review_request_event_id : Option ℕ
  pub latest_review_id : Option ℕ
  pub latest_review_dismissed : Bool

pub record ReviewAuditResult : Type 0 where
  pub items : List ReviewItem
  pub suggestions : List ReviewItem
  pub lifecycles : List ReviewItemLifecycle

unfoldable pub load_or_create_pull_request :
    Option PullRequest → ReviewPullRequestCommand → PullRequest
unfolding new_pull_request
load_or_create_pull_request none command =
    new_pull_request command.pr_id command.title command.head_sha
load_or_create_pull_request (some pr) command = pr

-- `value or 0`
abbrev pub or_zero : Option ℕ → ℕ
or_zero none = 0
or_zero (some n) = n

abbrev pub newer_event : Option ℕ → Option ℕ → Bool
newer_event none last = false
newer_event (some event_id) last = ltb (or_zero last) event_id

-- the tests on two review IDs
abbrev pub newer_review : Option ℕ → ℕ → Bool → Bool
newer_review none review_id last_dismissed = true
newer_review (some last_id) review_id last_dismissed =
    if ltb last_id review_id then true else nat_eq review_id last_id && not last_dismissed

abbrev pub newer_platform_review : Option ℕ → PullRequest → Bool
newer_platform_review none pr = false
newer_platform_review (some review_id) pr =
    newer_review pr.last_platform_review_id review_id pr.last_platform_review_dismissed

unfoldable pub platform_review_requires_review : ReviewPullRequestCommand → PullRequest → Bool
platform_review_requires_review command pr =
    command.latest_review_dismissed && newer_platform_review command.latest_review_id pr

unfoldable pub needs_review : ReviewPullRequestCommand → PullRequest → Bool
unfolding platform_review_requires_review
needs_review command pr =
    if command.force || PullRequest.needs_review pr command.head_sha
    then true
    else if newer_event command.review_request_event_id pr.last_review_request_event_id
    then true
    else platform_review_requires_review command pr

abbrev pub record_event : Option ℕ → PullRequest → PullRequest
record_event none pr = pr
record_event (some event_id) pr = record_review_request_event pr event_id

abbrev pub record_latest : Option ℕ → Bool → PullRequest → PullRequest
record_latest none dismissed_ pr = pr
record_latest (some review_id) dismissed_ pr = record_platform_review pr review_id dismissed_

-- What `_handle_already_reviewed` saves.
unfoldable pub handle_already_reviewed : ReviewPullRequestCommand → PullRequest → PullRequest
handle_already_reviewed command pr =
    record_latest command.latest_review_id command.latest_review_dismissed
      (record_event command.review_request_event_id pr)

unfoldable pub extract_blocking_ids : List ReviewItem → List String
extract_blocking_ids items =
    map (λ item. item.id) (keep (λ item. is_open_blocking item && truthy item.id) items)

-- The line of `_build_unresolved_reason` on one ID; where two items carry the ID, the last one counts.
abbrev pub location : Option String → String
location none = ""
location (some path) = if truthy path then append " (" (append path ")") else ""

abbrev pub reason_line : String → Option ReviewItem → String
reason_line id none = append "- **#" (append id "** (details from prior review)")
reason_line id (some item) = append "- **#" (
    append id (
      append "** [" (
        append (Severity.value item.severity)
          (append "] " (append item.description (location item.file_path))))))

-- `item_by_id.get(id_)`
unfoldable pub item_by_id : String → List ReviewItem → Option ReviewItem
item_by_id id [] = none
item_by_id id (item ∷ items) = elim (item_by_id id items) [
  | some found ↦ some found
  | none ↦ if truthy item.id && item.id == id then some item else none
]

unfoldable pub build_unresolved_reason : List String → List ReviewItem → String
unfolding item_by_id join_lines append sorted
build_unresolved_reason unresolved_ids items = join_lines (
    "This PR cannot be approved because the following blocking issues remain unresolved:"
    ∷ ""
    ∷ map (λ id. reason_line id (item_by_id id items)) (sorted unresolved_ids))

abbrev pub is_empty : List String → Bool
is_empty [] = true
is_empty (k ∷ ks) = false

-- The blocking IDs are settled: those that the review no longer names are resolved, those that it
-- names are tracked.
unfoldable pub track_blocking : PullRequest → List String → PullRequest
unfolding contains
track_blocking pr blocking_ids =
    with_unresolved_blocking
      (with_resolved_blocking pr
        (keep (λ id. not (contains id blocking_ids)) pr.unresolved_blocking_ids))
      blocking_ids

-- The guard: no approval while a blocking issue is unresolved.
unfoldable pub guard_verdict : PullRequest → CodeReview → Result CodeReview
unfolding build_unresolved_reason
guard_verdict pr review =
    if not (is_empty pr.unresolved_blocking_ids) && not (is_changes_requested review.verdict)
    then new_review (record review {
      verdict = changes_requested;
      reason = build_unresolved_reason pr.unresolved_blocking_ids review.items;
    })
    else ok review
