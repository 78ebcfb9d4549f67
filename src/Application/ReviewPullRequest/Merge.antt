-- ===== src/Application/ReviewPullRequest/Merge.antt =====
-- review_pull_request_service.py, `_merge_audited_history`: audited records first, then what is new, under
-- new IDs where that is needed.
--
-- `generate_id` draws IDs until one is not reserved; it is a parameter.
pub mod Ids
pub mod Outcome
use pr_auto_reviewer.Prelude.{
  String, Bool, true, false, List, [], ◌∷◌, ◌++◌, Option, none, some, not, ◌&&◌, ◌||◌, ◌==◌, map,
  if◌then◌else◌,
}
use pr_auto_reviewer.Prelude.Lists.{any, keep}
use pr_auto_reviewer.Prelude.Sets.{contains, add, union}
use pr_auto_reviewer.Prelude.Result.{Result}
use pr_auto_reviewer.Prelude.Text.{truthy, or_else}
use pr_auto_reviewer.Prelude.Words.{squeeze}
use pr_auto_reviewer.Domain.Status.{ReviewItemStatus, created}
use pr_auto_reviewer.Domain.Item.{ReviewItem, is_active}
use pr_auto_reviewer.Domain.Verdict.{ReviewVerdict, changes_requested, is_changes_requested}
use pr_auto_reviewer.Domain.Review.{CodeReview, new_review, verdict_for}
use pr_auto_reviewer.Domain.PullRequest.{
  PullRequest, records, item_ids, historical_items, historical_suggestions,
}
use pr_auto_reviewer.Application.ReviewPullRequest.{ReviewAuditResult}

-- `{item.id for item in items if item.id}`, as a list
abbrev pub named_ids : List ReviewItem → List String
named_ids items = map (λ item. item.id) (keep (λ item. truthy item.id) items)

abbrev pub recorded : List CodeReview → List ReviewItem
recorded [] = []
recorded (r ∷ rs) = (records r ++ r.praise) ++ recorded rs

unfoldable pub historical_ids : PullRequest → List String
historical_ids pr =
    union
      (union (union [] (named_ids (historical_items pr ++ historical_suggestions pr)))
        (named_ids (recorded pr.reviews)))
      (keep truthy (item_ids pr.lifecycles))

abbrev pub path_text : Option String → String
path_text none = ""
path_text (some path) = path

unfoldable pub content_signature : ReviewItem → String × String
content_signature item =
    let code = squeeze item.current_code in
    if truthy code
    then (path_text item.file_path, code)
    else (path_text item.file_path, squeeze item.description)

abbrev pub same_signature : ReviewItem → ReviewItem → Bool
same_signature a b =
    let (path, text) = content_signature a in
    let (path', text') = content_signature b in path == path' && text == text'

-- `key in audited_keys or entry.id in active_ids or signature in active_signatures`: the entry
-- repeats an active audited record. The first test implies the third.
unfoldable pub repeats : List ReviewItem → ReviewItem → Bool
unfolding content_signature contains
repeats audited entry =
    let active = keep is_active audited in
    contains entry.id (named_ids active) || any (λ item. same_signature item entry) active

-- The new records of a merged review.
pub record Merged : Type 0 where
  pub fresh_items : List ReviewItem
  pub fresh_suggestions : List ReviewItem
  pub praise : List ReviewItem

module _ (generate_id : List String → String) where
  -- The ID that an entry leaves with: its own, or a new one.
  unfoldable pub fresh_id : List String → String → String
  unfolding contains
  fresh_id reserved id =
      if not (truthy id) || contains id reserved then generate_id reserved else id

  abbrev pub first_shown : ReviewItem → ReviewItem
  first_shown entry = record entry {
    status = created;
    status_explanation = or_else entry.status_explanation "First appearance in review";
  }

  -- The local function `prepare`: the records that are new, and the IDs that are then reserved.
  unfoldable pub prepare :
      List ReviewItem → List String → List ReviewItem → List ReviewItem × List String
  unfolding add
  prepare audited reserved [] = ([], reserved)
  prepare audited reserved (entry ∷ entries) =
      let id = fresh_id reserved entry.id in
      let (items, reserved') = prepare audited (add id reserved) entries in
      let skipped = prepare audited reserved entries in
      if repeats audited entry
      then skipped
      else (record (first_shown entry) { id = id } ∷ items, reserved')

  -- The loop over the praise.
  unfoldable pub renumber : List String → List ReviewItem → List ReviewItem × List String
  unfolding add
  renumber reserved [] = ([], reserved)
  renumber reserved (entry ∷ entries) =
      let id = fresh_id reserved entry.id in
      let (praise, reserved') = renumber (add id reserved) entries in
      (record entry { id = id } ∷ praise, reserved')

  unfoldable pub fresh_records : CodeReview → ReviewAuditResult → List String → Merged
  fresh_records review audit reserved_ids =
      let reserved = union (union [] reserved_ids) (named_ids (audit.items ++ audit.suggestions)) in
      let (items, reserved₁) = prepare audit.items reserved review.items in
      let (suggestions, reserved₂) = prepare audit.suggestions reserved₁ review.suggestions in
      let (praise, reserved₃) = renumber reserved₂ review.praise in
      record { fresh_items = items; fresh_suggestions = suggestions; praise = praise }

  unfoldable pub merge_audited_history :
      CodeReview → ReviewAuditResult → List String → Result CodeReview
  unfolding verdict_for
  merge_audited_history review audit reserved_ids =
      let m = fresh_records review audit reserved_ids in
      let items = audit.items ++ m.fresh_items in
      new_review (record review {
        items = items;
        suggestions = audit.suggestions ++ m.fresh_suggestions;
        praise = m.praise;
        verdict =
            if is_changes_requested review.verdict then changes_requested else verdict_for items;
      })
