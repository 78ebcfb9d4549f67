-- ===== src/Domain/UniqueIds.antt =====
-- domain/services/review_item_factory.py: `ensure_unique_ids`. The generator of IDs, which draws random
-- numbers, is a parameter.
pub mod Unique
use pr_auto_reviewer.Prelude.{String, List, [], ◌∷◌, not, ◌&&◌, if◌then◌else◌}
use pr_auto_reviewer.Prelude.Result.{Result}
use pr_auto_reviewer.Prelude.Sets.{contains, add}
use pr_auto_reviewer.Prelude.Text.{truthy}
use pr_auto_reviewer.Domain.Item.{ReviewItem}
use pr_auto_reviewer.Domain.Review.{CodeReview, new_review}

module _ (generate_id : List String → String) where
  -- the item, with the IDs that are used after it
  unfoldable pub ensure_unique_id : List String → ReviewItem → ReviewItem × List String
  ensure_unique_id used item =
      let candidate = generate_id used in
      if truthy item.id && not (contains item.id used)
      then (item, add item.id used)
      else (record item { id = candidate }, add candidate used)

  unfoldable pub ensure_each : List String → List ReviewItem → List ReviewItem × List String
  ensure_each used [] = ([], used)
  ensure_each used (item ∷ items) =
      let (item', used') = ensure_unique_id used item in
      let (items', used'') = ensure_each used' items in (item' ∷ items', used'')

  -- the review before `replace` checks it
  unfoldable pub with_unique_ids : CodeReview → CodeReview
  with_unique_ids review =
      let (items, used) = ensure_each [] review.items in
      let (suggestions, used') = ensure_each used review.suggestions in
      let (praise, used'') = ensure_each used' review.praise in
      record review { items = items; suggestions = suggestions; praise = praise }

  unfoldable pub ensure_unique_ids : CodeReview → Result CodeReview
  unfolding with_unique_ids
  ensure_unique_ids review = new_review (with_unique_ids review)
