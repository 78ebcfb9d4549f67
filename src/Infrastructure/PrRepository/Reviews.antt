-- ===== src/Infrastructure/PrRepository/Reviews.antt =====
-- infrastructure/persistence/json_file_pr_repository.py: `CodeReviewCodec`.
use pr_auto_reviewer.Prelude.{
  String, true, false, ◌≡◌, refl, List, [], ◌∷◌, ◌==◌, if◌then◌else◌, arith,
}
use pr_auto_reviewer.Prelude.Json.{
  Json, string, array, object, Object, fields, elements, get_text, get_list, read_object,
  read_array-elements, read_array,
}
use pr_auto_reviewer.Prelude.Lists.{All-unit, length}
use pr_auto_reviewer.Prelude.Result.{Result, ok, raise, value_error, ◌>>=◌}
use pr_auto_reviewer.Prelude.Text.{truthy, or_else, strip, lower}
use pr_auto_reviewer.Prelude.Words.{append, show}
use pr_auto_reviewer.Domain.Item.{ReviewItem}
use pr_auto_reviewer.Domain.Verdict.{
  ReviewVerdict, approved, changes_requested, commented, is_commented,
}
use pr_auto_reviewer.Domain.Verdict
use pr_auto_reviewer.Domain.Review.{CodeReview, new_review}
use pr_auto_reviewer.Infrastructure.PrRepository.Items.{
  serialize_item, deserialize_item, deserialize-serialize_item,
}

unfoldable pub serialize_review : CodeReview → Json
serialize_review review = object (
    fields (
      ("verdict", string (Verdict.value review.verdict))
      ∷ ("summary", string review.summary)
      ∷ ("reason", string review.reason)
      ∷ ("model_used", string review.model_used)
      ∷ ("items", array (elements serialize_item review.items))
      ∷ ("suggestions", array (elements serialize_item review.suggestions))
      ∷ ("praise", array (elements serialize_item review.praise))
      ∷ []))

-- `ReviewVerdict(value)`
unfoldable pub verdict_of : String → Result ReviewVerdict
verdict_of s =
    if s == "approved"
    then ok approved
    else if s == "changes_requested"
    then ok changes_requested
    else if s == "commented"
    then ok commented
    else raise value_error

-- the verdict of a persisted review: COMMENTED is no longer one
abbrev without_comment : List ReviewItem → ReviewVerdict → ReviewVerdict
without_comment [] commented = approved
without_comment (item ∷ items) commented = changes_requested
without_comment _ verdict = verdict

unfoldable pub resolve_verdict : String → List ReviewItem → Result ReviewVerdict
unfolding verdict_of strip lower
resolve_verdict raw_verdict items = do
  verdict ← verdict_of (lower (strip raw_verdict))
  ok (without_comment items verdict)

-- `_resolve_strings`: the summary, for a number of items
unfoldable pub resolve_summary : String → List ReviewItem → String
unfolding append show
resolve_summary summary items =
    or_else summary
      (append "Found " (append (show (length items)) " issue(s) in persisted review."))

unfoldable pub deserialize_review : Object → Result CodeReview
unfolding get_text get_list
deserialize_review raw = do
  items ← get_list (read_object deserialize_item) "items" raw
  suggestions ← get_list (read_object deserialize_item) "suggestions" raw
  praise ← get_list (read_object deserialize_item) "praise" raw
  raw_verdict ← get_text "verdict" "" raw
  verdict ← resolve_verdict raw_verdict items
  raw_summary ← get_text "summary" "" raw
  raw_reason ← get_text "reason" "" raw
  raw_model ← get_text "model_used" "" raw
  new_review (record {
    verdict = verdict;
    reason = or_else raw_reason (resolve_summary raw_summary items);
    summary = resolve_summary raw_summary items;
    items = items;
    suggestions = suggestions;
    praise = praise;
    model_used = or_else raw_model "unknown";
  })

-- A review that its constructor accepts.
pub record IsAccepted (review : CodeReview) : Type 0 where
  pub verdict : is_commented review.verdict ≡ false
  pub reason : truthy review.reason ≡ true
  pub summary : truthy review.summary ≡ true
  pub model_used : truthy review.model_used ≡ true

resolve_verdict-value :
    (v : ReviewVerdict) (items : List ReviewItem)
    → is_commented v ≡ false
    → resolve_verdict (Verdict.value v) items ≡ ok v
unfolding resolve_verdict
resolve_verdict-value approved [] h = refl
resolve_verdict-value approved (i ∷ is) h = refl
resolve_verdict-value changes_requested [] h = refl
resolve_verdict-value changes_requested (i ∷ is) h = refl
resolve_verdict-value commented items h = ground arith

or_else-truthy : (a b : String) → truthy a ≡ true → or_else a b ≡ a
or_else-truthy String.[] b h = ground arith
or_else-truthy (String.◌∷◌ c a) b h = refl

resolve_summary-truthy :
    (summary : String) (items : List ReviewItem)
    → truthy summary ≡ true
    → resolve_summary summary items ≡ summary
unfolding resolve_summary
resolve_summary-truthy summary items h = or_else-truthy summary _ h

new_review-accepted : (review : CodeReview) → IsAccepted review → new_review review ≡ ok review
unfolding new_review
new_review-accepted review a = rw (a.verdict, a.reason, a.summary, a.model_used) refl

read_items :
    (items : List ReviewItem)
    → read_array (read_object deserialize_item) (elements serialize_item items) ≡ ok items
read_items items =
    read_array-elements (read_object deserialize_item) serialize_item (λ item. Unit {0})
      (λ item u. deserialize-serialize_item item) items (All-unit items)

pub deserialize-serialize_review :
    (review : CodeReview)
    → IsAccepted review
    → read_object deserialize_review (serialize_review review) ≡ ok review
unfolding deserialize_review serialize_review
deserialize-serialize_review review a =
    rw
      (
        read_items review.items,
        read_items review.suggestions,
        read_items review.praise,
        resolve_verdict-value review.verdict review.items a.verdict,
        resolve_summary-truthy review.summary review.items a.summary,
        or_else-truthy review.reason review.summary a.reason,
        or_else-truthy review.model_used "unknown" a.model_used,
      )
      (new_review-accepted review a)
