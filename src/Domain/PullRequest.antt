-- ===== src/Domain/PullRequest.antt =====
-- domain/entities/pull_request.py: the record, the operations that set its fields, and its views of
-- review items. `str(sha)` is the field `value`.
pub mod Lifecycles
pub mod Index
pub mod Candidates
pub mod Audit
pub mod Dismissal
pub mod Views
pub mod Reviews
pub mod Derive
use pr_auto_reviewer.Prelude.{
  ℕ, String, Bool, true, false, List, [], ◌∷◌, ◌++◌, Option, none, some, not, ◌&&◌, ◌||◌, map,
  if◌then◌else◌, ◌==◌, leb,
}
use pr_auto_reviewer.Prelude.Lists.{first, last}
use pr_auto_reviewer.Prelude.Sets.{contains, add, union, difference}
use pr_auto_reviewer.Prelude.Dict.{lookup, insert}
use pr_auto_reviewer.Prelude.Result.{Result, ok, raise, key_error, ◌>>=◌, fold_m}
use pr_auto_reviewer.Prelude.Text.{truthy}
use pr_auto_reviewer.Domain.Status.{ReviewItemStatus, created, opened, resolved, dismissed}
use pr_auto_reviewer.Domain.Identity.{CommitSha, PullRequestId, CommentId}
use pr_auto_reviewer.Domain.Item.{ReviewItem}
use pr_auto_reviewer.Domain.Review.{CodeReview}
use pr_auto_reviewer.Domain.Lifecycle
use pr_auto_reviewer.Domain.Lifecycle.{ReviewItemLifecycle, first_appearance, audit, dismiss}

pub record PullRequest : Type 0 where
  pub id : PullRequestId
  pub title : String
  pub head_sha : CommitSha
  pub unresolved_blocking_ids : List String
  pub created_issue_item_ids : List String
  pub dismissed_item_ids : List String
  pub last_reviewed_at : Option String
  pub is_draft : Bool
  pub processed_comment_ids : List String
  pub reviews : List CodeReview
  pub last_review_request_event_id : Option ℕ
  pub last_platform_review_id : Option ℕ
  pub last_platform_review_dismissed : Bool
  pub last_command_checked_at : Option String
  pub lifecycles : List ReviewItemLifecycle

-- `PullRequest(id=..., title=..., head_sha=...)`
unfoldable pub new_pull_request : PullRequestId → String → CommitSha → PullRequest
new_pull_request id title head_sha = record {
  id = id;
  title = title;
  head_sha = head_sha;
  unresolved_blocking_ids = [];
  created_issue_item_ids = [];
  dismissed_item_ids = [];
  last_reviewed_at = none;
  is_draft = false;
  processed_comment_ids = [];
  reviews = [];
  last_review_request_event_id = none;
  last_platform_review_id = none;
  last_platform_review_dismissed = false;
  last_command_checked_at = none;
  lifecycles = [];
}

-- `(*review.items, *review.suggestions)`
abbrev pub records : CodeReview → List ReviewItem
records review = review.items ++ review.suggestions

abbrev pub item_ids : List ReviewItemLifecycle → List String
item_ids ls = map (λ l. l.item_id) ls

abbrev pub has_reviews : List CodeReview → Bool
has_reviews [] = false
has_reviews (r ∷ rs) = true

abbrev pub has_lifecycles : List ReviewItemLifecycle → Bool
has_lifecycles [] = false
has_lifecycles (l ∷ ls) = true

unfoldable pub needs_review : PullRequest → CommitSha → Bool
needs_review pr sha =
    if not (has_reviews pr.reviews) then true else not (sha.value == pr.head_sha.value)

-- the first test of `record_review_request_event`
abbrev already_recorded : Option ℕ → ℕ → Bool
already_recorded none event_id = false
already_recorded (some last_id) event_id = leb event_id last_id

unfoldable pub record_review_request_event : PullRequest → ℕ → PullRequest
record_review_request_event pr event_id =
    if already_recorded pr.last_review_request_event_id event_id
    then pr
    else record pr { last_review_request_event_id = some event_id }

unfoldable pub record_platform_review : PullRequest → ℕ → Bool → PullRequest
record_platform_review pr review_id dismissed_ = record pr {
  last_platform_review_id = some review_id;
  last_platform_review_dismissed = dismissed_;
}

unfoldable pub mark_comment_processed : PullRequest → CommentId → PullRequest
mark_comment_processed pr comment_id = record pr {
  processed_comment_ids = union pr.processed_comment_ids (comment_id.value ∷ []);
}

unfoldable pub is_comment_processed : PullRequest → CommentId → Bool
is_comment_processed pr comment_id = contains comment_id.value pr.processed_comment_ids

unfoldable pub record_command_check : PullRequest → String → PullRequest
record_command_check pr activity_timestamp = record pr {
  last_command_checked_at = some activity_timestamp;
}

unfoldable pub record_created_issue_items : PullRequest → List String → PullRequest
record_created_issue_items pr [] = pr
record_created_issue_items pr (k ∷ ks) = record pr {
  created_issue_item_ids = union pr.created_issue_item_ids (k ∷ ks);
}

unfoldable pub with_unresolved_blocking : PullRequest → List String → PullRequest
with_unresolved_blocking pr [] = pr
with_unresolved_blocking pr (k ∷ ks) = record pr {
  unresolved_blocking_ids = union pr.unresolved_blocking_ids (k ∷ ks);
}

unfoldable pub with_resolved_blocking : PullRequest → List String → PullRequest
with_resolved_blocking pr [] = pr
with_resolved_blocking pr (k ∷ ks) = record pr {
  unresolved_blocking_ids = difference pr.unresolved_blocking_ids (k ∷ ks);
}

-- `next((entry for entry in lifecycles if entry.item_id == k), None)`
abbrev pub find_lifecycle : String → List ReviewItemLifecycle → Option ReviewItemLifecycle
find_lifecycle k ls = first (λ l. l.item_id == k) ls

-- `lifecycle is None or lifecycle.is_active`
abbrev pub none_or_active : Option ReviewItemLifecycle → Bool
none_or_active none = true
none_or_active (some l) = Lifecycle.is_active l

-- the last two returns of `_project_item`
abbrev pub project_lifecycle : ReviewItem → Option ReviewItemLifecycle → ReviewItem
project_lifecycle item none = item
project_lifecycle item (some l) = record item {
  status = l.status;
  status_explanation = l.status_explanation;
}

unfoldable pub project_item : PullRequest → ReviewItem → ReviewItem
project_item pr item =
    let lifecycle = find_lifecycle item.id pr.lifecycles in
    if contains item.id pr.dismissed_item_ids && none_or_active lifecycle
    then record item { status = dismissed; status_explanation = "Dismissed by command" }
    else project_lifecycle item lifecycle

abbrev project_latest : PullRequest → Option CodeReview → List ReviewItem
project_latest pr none = []
project_latest pr (some latest) = map (project_item pr) (records latest)

unfoldable pub latest_review_items : PullRequest → List ReviewItem
unfolding project_item
latest_review_items pr = project_latest pr (last pr.reviews)

unfoldable pub review_items : List CodeReview → List ReviewItem
review_items [] = []
review_items (r ∷ rs) = r.items ++ review_items rs

unfoldable pub review_suggestions : List CodeReview → List ReviewItem
review_suggestions [] = []
review_suggestions (r ∷ rs) = r.suggestions ++ review_suggestions rs

-- the loop of `_historical`
unfoldable pub historical_from : PullRequest → List String → List ReviewItem → List ReviewItem
historical_from pr seen [] = []
historical_from pr seen (item ∷ items) =
    let skipped = truthy item.id && contains item.id seen in
    let seen' = if truthy item.id then add item.id seen else seen in
    let rest = historical_from pr seen' items in
    if skipped then rest else project_item pr item ∷ rest

unfoldable pub historical_items : PullRequest → List ReviewItem
unfolding historical_from review_items
historical_items pr = historical_from pr [] (review_items pr.reviews)

unfoldable pub historical_suggestions : PullRequest → List ReviewItem
unfolding historical_from review_suggestions
historical_suggestions pr = historical_from pr [] (review_suggestions pr.reviews)
