-- ===== src/Examples/Reviews.antt =====
-- A second review of the sample pull request: merged, settled and concluded.
use pr_auto_reviewer.Prelude.{[], ◌∷◌, none, some, ◌≡◌, refl, true, false}
use pr_auto_reviewer.Prelude.Result.{ok}
use pr_auto_reviewer.Domain.Review.{CodeReview, new_review, is_coherent, reconcile}
use pr_auto_reviewer.Domain.PullRequest.{PullRequest}
use pr_auto_reviewer.Application.ReviewPullRequest.{
  ReviewPullRequestCommand, ReviewAuditResult, extract_blocking_ids, track_blocking, guard_verdict,
  needs_review,
}
use pr_auto_reviewer.Application.ReviewPullRequest.Again.{needs_review-record_review}
use pr_auto_reviewer.Application.ReviewPullRequest.Settle.{IsSettled, settle_lem}
use pr_auto_reviewer.Application.ReviewPullRequest.Merge.{merge_audited_history}
use pr_auto_reviewer.Application.ReviewPullRequest.Merge.Outcome.{
  IsMerged, merge_audited_history_lem,
}
use pr_auto_reviewer.Application.ReviewPullRequest.Conclude.{
  conclude, record_review, IsConcluded, conclude_lem,
}
use pr_auto_reviewer.Domain.Verdict.{approved, changes_requested}
use pr_auto_reviewer.Prelude.Lists.{any}
use pr_auto_reviewer.Domain.Item.{is_open_blocking}
use pr_auto_reviewer.Domain.Review.Coherence.{reconcile-is_coherent}
use pr_auto_reviewer.Examples.Samples.{reviewed, review1, sha2, pr_id, blocker, nit, lifecycle_c}
use pr_auto_reviewer.Examples.PullRequests.{reviewed-IsSound, lifecycle_c-IsValid}
use pr_auto_reviewer.Examples.Generator.{longer, longer_lem}

abbrev command : ReviewPullRequestCommand
command = record {
  pr_id = pr_id;
  head_sha = sha2;
  title = "Fix";
  force = false;
  review_request_event_id = some 4;
  latest_review_id = none;
  latest_review_dismissed = false;
}

-- The auditor left the blocker open.
abbrev audit : ReviewAuditResult
audit = record { items = blocker ∷ []; suggestions = []; lifecycles = lifecycle_c ∷ [] }

-- The model approves.
abbrev approval : CodeReview
approval = record review1 { verdict = approved; items = nit ∷ [] }

approval-wellformed : new_review approval ≡ ok approval
unfolding new_review
approval-wellformed = refl

settle_lem_example :
    (review' : CodeReview) × (guard_verdict
        (track_blocking reviewed (extract_blocking_ids (nit ∷ [])))
        approval
      ≡ ok review')
    × IsSettled (track_blocking reviewed (extract_blocking_ids (nit ∷ []))) approval review'
settle_lem_example = settle_lem reviewed approval approval-wellformed

merge_audited_history_lem_example :
    (merged : CodeReview) × (merge_audited_history longer approval audit ("a1b2" ∷ []) ≡ ok merged)
    × IsMerged approval audit ("a1b2" ∷ []) merged
merge_audited_history_lem_example =
    merge_audited_history_lem longer longer_lem approval audit ("a1b2" ∷ []) approval-wellformed

conclude_lem_example :
    (final : CodeReview) × (saved : PullRequest) × (conclude longer
        (λ review. ok tt)
        command
        reviewed
        approval
        audit
      ≡ ok (final, saved))
    × IsConcluded command reviewed final saved
conclude_lem_example =
    conclude_lem longer (λ review. ok tt) longer_lem command reviewed approval audit
      reviewed-IsSound (lifecycle_c-IsValid, tt) approval-wellformed refl

reconcile-is_coherent_example :
    (is_coherent (reconcile approved (blocker ∷ [])) (blocker ∷ []) ≡ true)
    × (is_coherent approved (blocker ∷ []) ≡ true → reconcile approved (blocker ∷ []) ≡ approved)
    × (reconcile approved (blocker ∷ []) ≡ approved → any is_open_blocking (blocker ∷ []) ≡ false)
    × (reconcile approved (blocker ∷ []) ≡ changes_requested
        → any is_open_blocking (blocker ∷ []) ≡ true)
reconcile-is_coherent_example = reconcile-is_coherent approved (blocker ∷ [])

needs_review-record_review_example :
    (saved : PullRequest) × (record_review reviewed approval command ≡ ok saved)
    × (needs_review command saved ≡ false)
needs_review-record_review_example =
    needs_review-record_review command reviewed approval reviewed-IsSound refl refl
