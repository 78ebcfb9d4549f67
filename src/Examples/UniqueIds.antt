-- ===== src/Examples/UniqueIds.antt =====
-- A review with an ID that occurs twice, and one that is missing.
use pr_auto_reviewer.Domain.Renaming.{IsRenaming}
use pr_auto_reviewer.Prelude.{[], ◌∷◌, ◌++◌, ◌≡◌, refl, true}
use pr_auto_reviewer.Prelude.Lists.{All}
use pr_auto_reviewer.Prelude.Result.{ok}
use pr_auto_reviewer.Prelude.Sets.{Distinct, contains, add}
use pr_auto_reviewer.Prelude.Text.{truthy}
use pr_auto_reviewer.Prelude.Words.{append}
use pr_auto_reviewer.Domain.Review.{CodeReview, new_review}
use pr_auto_reviewer.Domain.UniqueIds.{
  ensure_unique_ids, ensure_each, ensure_unique_id, with_unique_ids,
}
use pr_auto_reviewer.Domain.UniqueIds.Unique.{ids_of, ensure_unique_ids_lem}
use pr_auto_reviewer.Examples.Samples.{review1, blocker, nit}
use pr_auto_reviewer.Examples.Generator.{longer, longer_lem}

abbrev doubled : CodeReview
doubled = record review1 {
  items = blocker ∷ record nit { id = "a1b2" } ∷ [];
  praise = record nit { id = "" } ∷ [];
}

test_with_unique_ids : ids_of (with_unique_ids longer doubled).items ≡ "a1b2" ∷ "a1b2x" ∷ []
unfolding with_unique_ids ensure_each ensure_unique_id contains add append longer
test_with_unique_ids = refl

ensure_unique_ids_lem_example :
    (review' : CodeReview) × (ensure_unique_ids longer doubled ≡ ok review')
    × Distinct (ids_of review'.items ++ (ids_of review'.suggestions ++ ids_of review'.praise))
    × All (λ item. truthy item.id ≡ true) (review'.items ++ (review'.suggestions ++ review'.praise))
    × IsRenaming [] doubled.items review'.items
    × IsRenaming (ids_of review'.items) doubled.suggestions review'.suggestions
    × IsRenaming (ids_of review'.items ++ ids_of review'.suggestions) doubled.praise review'.praise
    × (review' ≡ record doubled {
      items = review'.items;
      suggestions = review'.suggestions;
      praise = review'.praise;
    })
unfolding new_review
ensure_unique_ids_lem_example = ensure_unique_ids_lem longer longer_lem doubled refl
