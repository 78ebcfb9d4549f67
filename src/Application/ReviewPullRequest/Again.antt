-- ===== src/Application/ReviewPullRequest/Again.antt =====
-- review_pull_request_service.py: `_needs_review` after a review was recorded
use pr_auto_reviewer.Prelude.{true, false, ◌++◌, ◌∷◌, [], ◌≡◌, refl, ap, ◌∙◌, arith, eq_iff, List}
use pr_auto_reviewer.Prelude.Result.{ok}
use pr_auto_reviewer.Prelude.Text.{truthy}
use pr_auto_reviewer.Domain.Identity.{CommitSha}
use pr_auto_reviewer.Domain.Review.{CodeReview}
use pr_auto_reviewer.Domain.PullRequest.{
  PullRequest, record_review_request_event, record_platform_review, has_reviews,
}
use pr_auto_reviewer.Domain.PullRequest
use pr_auto_reviewer.Domain.PullRequest.Index.{IsSound}
use pr_auto_reviewer.Domain.PullRequest.Reviews.{add_review_lem}
use pr_auto_reviewer.Application.ReviewPullRequest.{
  ReviewPullRequestCommand, needs_review, platform_review_requires_review, newer_event,
}
use pr_auto_reviewer.Application.ReviewPullRequest.Conclude.{record_review, noted, noted-IsSound}

review_is_old :
    (command : ReviewPullRequestCommand) (pr : PullRequest)
    → platform_review_requires_review command (noted command pr) ≡ false
unfolding platform_review_requires_review record_review_request_event record_platform_review
review_is_old command pr = ground arith

-- `_needs_review`, once the platform's part is known to be old.
nothing_new :
    (command : ReviewPullRequestCommand) (pr : PullRequest)
    → command.force ≡ false
    → PullRequest.needs_review pr command.head_sha ≡ false
    → newer_event command.review_request_event_id pr.last_review_request_event_id ≡ false
    → platform_review_requires_review command pr ≡ false
    → needs_review command pr ≡ false
unfolding needs_review
nothing_new command pr f n e p = ground (arith, f, n, e, p)

event-noted :
    (command : ReviewPullRequestCommand) (pr : PullRequest)
    → newer_event command.review_request_event_id (noted command pr).last_review_request_event_id
      ≡ false
unfolding record_review_request_event record_platform_review
event-noted command pr = ground arith

has_reviews-snoc : (rs : List CodeReview) (r : CodeReview) → has_reviews (rs ++ r ∷ []) ≡ true
has_reviews-snoc [] r = refl
has_reviews-snoc (x ∷ rs) r = refl

reviewed_at_head :
    (pr : PullRequest) (rs : List CodeReview) (r : CodeReview) (sha : CommitSha)
    → pr.reviews ≡ rs ++ r ∷ []
    → pr.head_sha ≡ sha
    → PullRequest.needs_review pr sha ≡ false
unfolding PullRequest.needs_review
reviewed_at_head pr rs r sha e h = ground (
  arith,
  ap has_reviews e,
  has_reviews-snoc rs r,
  ap (λ c. c.value) h,
  eq_iff sha.value pr.head_sha.value,
)

same_platform :
    (command : ReviewPullRequestCommand) (pr pr' : PullRequest)
    → pr'.last_platform_review_id ≡ pr.last_platform_review_id
    → pr'.last_platform_review_dismissed ≡ pr.last_platform_review_dismissed
    → platform_review_requires_review command pr' ≡ platform_review_requires_review command pr
unfolding platform_review_requires_review
same_platform command pr pr' i d = ground (arith, i, d)

-- A review that was recorded is not done again for the same command, unless it is forced: the pull
-- request that is saved then needs none.
pub needs_review-record_review :
    (command : ReviewPullRequestCommand) (pr : PullRequest) (review : CodeReview)
    → IsSound pr
    → truthy command.head_sha.value ≡ true
    → command.force ≡ false
    → (saved : PullRequest) × (record_review pr review command ≡ ok saved)
      × (needs_review command saved ≡ false)
unfolding record_review
needs_review-record_review command pr review s hs f =
    let (saved, e, n) =
      add_review_lem (noted command pr) review command.head_sha (noted-IsSound command pr s) hs in
    (
      saved,
      e,
      nothing_new command saved f
          (reviewed_at_head saved (noted command pr).reviews review command.head_sha n.reviews
            n.head_sha)
          (ap (newer_event command.review_request_event_id) n.event ∙ event-noted command pr)
          (same_platform command (noted command pr) saved n.platform n.platform_dismissed
            ∙ review_is_old command pr),
    )
