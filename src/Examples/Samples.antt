-- ===== src/Examples/Samples.antt =====
-- Small inputs that the examples share.
use pr_auto_reviewer.Prelude.{false, [], ◌∷◌, none, some}
use pr_auto_reviewer.Domain.Severity.{major, minor}
use pr_auto_reviewer.Domain.Category.{bug, style}
use pr_auto_reviewer.Domain.Identity.{CommitSha, PullRequestId}
use pr_auto_reviewer.Domain.Item.{ReviewItem, new_item}
use pr_auto_reviewer.Domain.Verdict.{changes_requested}
use pr_auto_reviewer.Domain.Review.{CodeReview}
use pr_auto_reviewer.Domain.Lifecycle.{ReviewItemLifecycle}
use pr_auto_reviewer.Domain.Lifecycle.Moves.{appeared}
use pr_auto_reviewer.Domain.PullRequest.{PullRequest}

abbrev pub blocker : ReviewItem
blocker = new_item major bug (some "src/a.py") "null check missing" "10-12" "a1b2" "x = y.z" ""

abbrev pub nit : ReviewItem
nit = new_item minor style (some "src/b.py") "long line" "3" "c3d4" "" ""

abbrev pub sha1 : CommitSha
sha1 = record { value = "111" }

abbrev pub sha2 : CommitSha
sha2 = record { value = "222" }

abbrev pub review1 : CodeReview
review1 = record {
  verdict = changes_requested;
  reason = "bug";
  summary = "one bug";
  items = blocker ∷ nit ∷ [];
  suggestions = [];
  praise = [];
  model_used = "m";
}

abbrev pub pr_id : PullRequestId
pr_id = record { repository = "o/r"; number = 7 }

abbrev pub lifecycle_a : ReviewItemLifecycle
lifecycle_a = appeared "a1b2" "111" ""

abbrev pub lifecycle_c : ReviewItemLifecycle
lifecycle_c = appeared "c3d4" "111" ""

-- After one review at the first commit.
abbrev pub reviewed : PullRequest
reviewed = record {
  id = pr_id;
  title = "Fix";
  head_sha = sha1;
  unresolved_blocking_ids = "a1b2" ∷ [];
  created_issue_item_ids = [];
  dismissed_item_ids = [];
  last_reviewed_at = none;
  is_draft = false;
  processed_comment_ids = [];
  reviews = review1 ∷ [];
  last_review_request_event_id = none;
  last_platform_review_id = none;
  last_platform_review_dismissed = false;
  last_command_checked_at = none;
  lifecycles = lifecycle_a ∷ lifecycle_c ∷ [];
}
