-- ===== src/Domain/Review.antt =====
-- domain/value_objects/code_review.py and sub_review_guardrails.py
pub mod Coherence
use pr_auto_reviewer.Prelude.{
  String, Bool, true, false, List, [], ◌∷◌, not, ◌&&◌, ◌||◌, if◌then◌else◌,
}
use pr_auto_reviewer.Prelude.Lists.{any}
use pr_auto_reviewer.Prelude.Result.{Result, ok, raise, review_verdict}
use pr_auto_reviewer.Prelude.Text.{truthy}
use pr_auto_reviewer.Domain.Item.{ReviewItem, is_open_blocking}
use pr_auto_reviewer.Domain.Verdict.{
  ReviewVerdict, approved, changes_requested, is_commented, is_approved, is_changes_requested,
}

pub record CodeReview : Type 0 where
  pub verdict : ReviewVerdict
  pub reason : String
  pub summary : String
  pub items : List ReviewItem
  pub suggestions : List ReviewItem
  pub praise : List ReviewItem
  pub model_used : String

-- `CodeReview(...)` and `replace(review, ...)`, with the checks of `__post_init__`
unfoldable pub new_review : CodeReview → Result CodeReview
new_review r =
    if is_commented r.verdict
    then raise review_verdict
    else if not (truthy r.reason) || not (truthy r.summary)
    then raise review_verdict
    else if not (truthy r.model_used)
    then raise review_verdict
    else ok r

unfoldable pub verdict_for : List ReviewItem → ReviewVerdict
verdict_for [] = approved
verdict_for (item ∷ items) =
    if any is_open_blocking (item ∷ items) then changes_requested else approved

unfoldable pub is_coherent : ReviewVerdict → List ReviewItem → Bool
is_coherent verdict items =
    let has_blocking = any is_open_blocking items in
    let incoherent =
      is_approved verdict && has_blocking || is_changes_requested verdict && not has_blocking in
    not incoherent

unfoldable pub reconcile : ReviewVerdict → List ReviewItem → ReviewVerdict
unfolding is_coherent verdict_for
reconcile verdict items = if is_coherent verdict items then verdict else verdict_for items
