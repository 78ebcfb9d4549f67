-- ===== src/Domain/UniqueIds/Unique.antt =====
-- The IDs of a review after `ensure_unique_ids`.
use pr_auto_reviewer.Prelude.{
  String, true, false, ◌≡◌, refl, List, [], ◌∷◌, ◌++◌, not, ◌&&◌, ◌||◌, arith, eq_iff, map, ap,
  Bool-cases, inl, inr, ◌∙◌,
}
use pr_auto_reviewer.Prelude.Lists.{All, All-append}
use pr_auto_reviewer.Prelude.Result.{ok}
use pr_auto_reviewer.Prelude.Sets.{
  contains, add, Distinct, contains-add, contains-append, append-Distinct,
}
use pr_auto_reviewer.Prelude.Text.{truthy}
use pr_auto_reviewer.Domain.Item.{ReviewItem}
use pr_auto_reviewer.Domain.Renaming.{IsRenaming, IsRenaming-same}
use pr_auto_reviewer.Domain.Review.{CodeReview, new_review}
use pr_auto_reviewer.Domain.UniqueIds.{
  ensure_unique_id, ensure_each, with_unique_ids, ensure_unique_ids,
}

abbrev pub ids_of : List ReviewItem → List String
ids_of items = map (λ item. item.id) items

-- After `used`, the new items have IDs of their own; they, and those in `used`, are used afterwards.
record Renamed (used : List String) (given items : List ReviewItem) (used' : List String)
    : Type 0 where
  own : Distinct (ids_of items)
  named : All (λ item. truthy item.id ≡ true) items
  apart : (k : String) → contains k (ids_of items) ≡ true → contains k used ≡ false
  kept : (k : String) → contains k used' ≡ contains k used || contains k (ids_of items)
  renaming : IsRenaming used given items

accepted_with :
    (review : CodeReview) (items suggestions praise : List ReviewItem)
    → new_review review ≡ ok review
    → new_review (record review { items = items; suggestions = suggestions; praise = praise })
      ≡ ok (record review { items = items; suggestions = suggestions; praise = praise })
unfolding new_review
accepted_with review items suggestions praise h = ground arith

module _ (generate_id : List String → String)
    (generates : (used : List String)
      → (truthy (generate_id used) ≡ true) × (contains (generate_id used) used ≡ false)) where
  one_renamed :
      (used : List String) (item : ReviewItem)
      → let (item', used') = ensure_unique_id generate_id used item in
        (truthy item'.id ≡ true)
        × (contains item'.id used ≡ false)
        × (used' ≡ add item'.id used)
        × (record item' { id = "" } ≡ record item { id = "" })
        × (truthy item.id ≡ true → contains item.id used ≡ false → item'.id ≡ item.id)
  unfolding ensure_unique_id
  one_renamed used item = elim (Bool-cases (truthy item.id && not (contains item.id used))) [
    | inl h ↦ rw h (ground arith, ground arith, refl, refl, λ t c. refl)
    | inr h ↦
        rw h ((generates used).0, (generates used).1, refl, refl, λ t c. ground (arith, h, t, c))
  ]

  ensure_each-Renamed :
      (used : List String) (items : List ReviewItem)
      → Renamed used items
          (ensure_each generate_id used items).0
          (ensure_each generate_id used items).1
  unfolding ensure_each contains
  ensure_each-Renamed used [] = record {
    own = tt;
    named = tt;
    apart = λ k h. ground arith;
    kept = λ k. ground arith;
    renaming = tt;
  }
  ensure_each-Renamed used (item ∷ items) =
      let (t, c, e, s, stays) = one_renamed used item in
      let step = ensure_unique_id generate_id used item in
      let rest = ensure_each-Renamed step.1 items in
      let used_after = λ (k : String). ap (contains k) e ∙ contains-add k step.0.id used in
      record {
        own = (
          ground (arith, rest.apart step.0.id, used_after step.0.id, eq_iff step.0.id step.0.id),
          rest.own,
        );
        named = (t, rest.named);
        apart = λ k h. ground (arith, rest.apart k, used_after k, eq_iff step.0.id k, c);
        kept = λ k. ground (arith, rest.kept k, used_after k);
        renaming = (
          s,
          stays,
          IsRenaming-same step.1 (step.0.id ∷ used) items (ensure_each generate_id step.1 items).0
              (λ k. ground (arith, used_after k, eq_iff step.0.id k)) rest.renaming,
        );
      }

  -- All items, suggestions and praise of the returned review have IDs, no two the same. They are those of
  -- the given review, in their order, and an ID that is not empty and that none before it has stays; what
  -- else the review holds is as it was. A review that its constructor accepts is returned, where the
  -- generator returns texts that are not empty and not among the used ones.
  pub ensure_unique_ids_lem :
      (review : CodeReview)
      → new_review review ≡ ok review
      → (review' : CodeReview) × (ensure_unique_ids generate_id review ≡ ok review')
        × Distinct (ids_of review'.items ++ (ids_of review'.suggestions ++ ids_of review'.praise))
        × All
            (λ item. truthy item.id ≡ true)
            (review'.items ++ (review'.suggestions ++ review'.praise))
        × IsRenaming [] review.items review'.items
        × IsRenaming (ids_of review'.items) review.suggestions review'.suggestions
        × IsRenaming
            (ids_of review'.items ++ ids_of review'.suggestions)
            review.praise
            review'.praise
        × (review' ≡ record review {
          items = review'.items;
          suggestions = review'.suggestions;
          praise = review'.praise;
        })
  unfolding ensure_unique_ids with_unique_ids contains
  ensure_unique_ids_lem review accepted =
      let a = ensure_each-Renamed [] review.items in
      let used = (ensure_each generate_id [] review.items).1 in
      let b = ensure_each-Renamed used review.suggestions in
      let used' = (ensure_each generate_id used review.suggestions).1 in
      let c = ensure_each-Renamed used' review.praise in
      (
        with_unique_ids generate_id review,
        accepted_with review _ _ _ accepted,
        append-Distinct (ids_of (ensure_each generate_id [] review.items).0) _ a.own
            (append-Distinct (ids_of (ensure_each generate_id used review.suggestions).0) _ b.own
              c.own (λ k h. ground (arith, c.apart k, b.kept k)))
            (λ k h. ground (
              arith,
              c.apart k,
              b.apart k,
              a.kept k,
              b.kept k,
              contains-append k (ids_of (ensure_each generate_id used review.suggestions).0)
                  (ids_of (ensure_each generate_id used' review.praise).0),
            )),
        All-append (λ item. truthy item.id ≡ true) _ _ a.named
            (All-append (λ item. truthy item.id ≡ true) _ _ b.named c.named),
        a.renaming,
        IsRenaming-same used (ids_of (ensure_each generate_id [] review.items).0) review.suggestions
            _ (λ k. ground (arith, a.kept k)) b.renaming,
        IsRenaming-same used' _ review.praise _
            (λ k. ground (
              arith,
              a.kept k,
              b.kept k,
              contains-append k (ids_of (ensure_each generate_id [] review.items).0)
                  (ids_of (ensure_each generate_id used review.suggestions).0),
            ))
            c.renaming,
        refl,
      )
