-- ===== src/Application/ReviewPullRequest/Settle.antt =====
-- review_pull_request_service.py: the blocking IDs after a review, and the guard on approvals
use pr_auto_reviewer.Prelude.{
  String, true, false, List, [], ◌∷◌, not, ◌&&◌, ◌||◌, ◌≡◌, refl, arith, Bool-cases, inl, inr,
  eq_iff,
}
use pr_auto_reviewer.Prelude.Lists.{keep}
use pr_auto_reviewer.Prelude.Sets.{contains, contains-union, contains-difference}
use pr_auto_reviewer.Prelude.Result.{ok}
use pr_auto_reviewer.Prelude.Text.{truthy}
use pr_auto_reviewer.Domain.Item.{ReviewItem}
use pr_auto_reviewer.Domain.Verdict.{
  ReviewVerdict, approved, changes_requested, is_changes_requested,
}
use pr_auto_reviewer.Domain.Review.{CodeReview, new_review}
use pr_auto_reviewer.Domain.PullRequest.{
  PullRequest, with_unresolved_blocking, with_resolved_blocking,
}
use pr_auto_reviewer.Application.ReviewPullRequest.{
  extract_blocking_ids, track_blocking, guard_verdict, build_unresolved_reason, is_empty,
}

contains-with_unresolved :
    (k : String) (pr : PullRequest) (ids : List String)
    → contains k (with_unresolved_blocking pr ids).unresolved_blocking_ids
      ≡ contains k pr.unresolved_blocking_ids || contains k ids
unfolding with_unresolved_blocking contains
contains-with_unresolved k pr [] = ground arith
contains-with_unresolved k pr (i ∷ ids) = contains-union k pr.unresolved_blocking_ids (i ∷ ids)

contains-with_resolved :
    (k : String) (pr : PullRequest) (ids : List String)
    → contains k (with_resolved_blocking pr ids).unresolved_blocking_ids
      ≡ contains k pr.unresolved_blocking_ids && not (contains k ids)
unfolding with_resolved_blocking contains
contains-with_resolved k pr [] = ground arith
contains-with_resolved k pr (i ∷ ids) = contains-difference k pr.unresolved_blocking_ids (i ∷ ids)

contains-keep :
    (k : String) (blocking ids : List String)
    → contains k (keep (λ id. not (contains id blocking)) ids)
      ≡ contains k ids && not (contains k blocking)
unfolding contains
contains-keep k blocking [] = refl
contains-keep k blocking (i ∷ ids) = ground (arith, eq_iff i k, contains-keep k blocking ids)

contains-track_blocking :
    (k : String) (pr : PullRequest) (ids : List String)
    → contains k (track_blocking pr ids).unresolved_blocking_ids ≡ contains k ids
unfolding track_blocking
contains-track_blocking k pr ids =
    let gone = keep (λ id. not (contains id ids)) pr.unresolved_blocking_ids in
    ground (
      arith,
      contains-with_unresolved k (with_resolved_blocking pr gone) ids,
      contains-with_resolved k pr gone,
      contains-keep k ids pr.unresolved_blocking_ids,
    )

reason-truthy :
    (ids : List String) (items : List ReviewItem)
    → truthy (build_unresolved_reason ids items) ≡ true
unfolding build_unresolved_reason
reason-truthy ids items = refl

-- What is published and what is tracked after the guard.
pub record IsSettled (pr : PullRequest) (review review' : CodeReview) : Type 0 where
  pub tracked :
      (k : String)
      → contains k pr.unresolved_blocking_ids ≡ contains k (extract_blocking_ids review'.items)
  pub items : review'.items ≡ review.items
  pub approved_only : review'.verdict ≡ approved → extract_blocking_ids review'.items ≡ []
  pub kept : review'.verdict ≡ approved → review' ≡ review
  pub requested : review.verdict ≡ changes_requested → review' ≡ review

-- The verdict that the guard leaves, when no blocking ID that the review names is untracked.
guard-verdict :
    (ids tracked : List String) (verdict verdict' : ReviewVerdict)
    → ((k : String) → contains k tracked ≡ contains k ids)
    → (not (is_empty tracked) && not (is_changes_requested verdict) ≡ false)
    → verdict ≡ approved
    → ids ≡ []
unfolding contains
guard-verdict [] tracked v v' h g a = refl
guard-verdict (i ∷ ids) [] v v' h g a = ground (arith, h i, eq_iff i i)
guard-verdict (i ∷ ids) (t ∷ tracked) v v' h g a = ground (arith, g, a)

guard_new_review :
    (ids : List String) (review : CodeReview)
    → new_review review ≡ ok review
    → let guarded = record review {
      verdict = changes_requested;
      reason = build_unresolved_reason ids review.items;
    } in
      new_review guarded ≡ ok guarded
unfolding new_review
guard_new_review ids review h = ground (arith, h, reason-truthy ids review.items)

-- Whatever was unresolved before, after a review the unresolved blocking IDs are those of the review's
-- open blocking items; the guard never raises on a well-formed review, keeps its items, leaves a
-- change request as it is, and lets an approval through only where the review names no blocking item.
pub settle_lem :
    (pr : PullRequest) (review : CodeReview)
    → new_review review ≡ ok review
    → let pr' = track_blocking pr (extract_blocking_ids review.items) in
      (review' : CodeReview) × (guard_verdict pr' review ≡ ok review')
      × IsSettled pr' review review'
unfolding guard_verdict
settle_lem pr review h =
    let ids = extract_blocking_ids review.items in
    let pr' = track_blocking pr ids in
    elim (Bool-cases
      (not (is_empty pr'.unresolved_blocking_ids) && not (is_changes_requested review.verdict))) [
        | inl overridden ↦ (
          record review {
            verdict = changes_requested;
            reason = build_unresolved_reason pr'.unresolved_blocking_ids review.items;
          },
          rw overridden (guard_new_review pr'.unresolved_blocking_ids review h),
          record {
            tracked = λ k. contains-track_blocking k pr ids;
            items = refl;
            approved_only = λ a. ground (arith, a);
            kept = λ a. ground (arith, a);
            requested = λ a. ground (arith, a, overridden);
          },
        )
        | inr kept ↦ (
          review,
          rw kept refl,
          record {
            tracked = λ k. contains-track_blocking k pr ids;
            items = refl;
            approved_only =
                guard-verdict ids pr'.unresolved_blocking_ids review.verdict review.verdict
                  (λ k. contains-track_blocking k pr ids) kept;
            kept = λ a. refl;
            requested = λ a. refl;
          },
        )
      ]
