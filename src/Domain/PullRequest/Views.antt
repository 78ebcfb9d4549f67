-- ===== src/Domain/PullRequest/Views.antt =====
-- What the views of review items show: `latest_review_items` and the historical records.
use pr_auto_reviewer.Prelude.{
  String, Bool, true, false, ◌≡◌, refl, sym, ap, subst, ◌∙◌, List, [], ◌∷◌, Option, none, some,
  ◌&&◌, not, ◌==◌, eq_iff, eq_refl, arith, if◌then◌else◌, Bool-cases, inl, inr, map,
}
use mathlib.Core.Option
use pr_auto_reviewer.Prelude.Lists.{All, last, first, keep}
use pr_auto_reviewer.Prelude.Sets.{contains, add, Distinct, contains-add}
use pr_auto_reviewer.Prelude.Result.{ok, ok-injective}
use pr_auto_reviewer.Prelude.Text.{truthy}
use pr_auto_reviewer.Domain.Item
use pr_auto_reviewer.Domain.Item.{ReviewItem}
use pr_auto_reviewer.Domain.Review.{CodeReview}
use pr_auto_reviewer.Domain.Lifecycle.{ReviewItemLifecycle}
use pr_auto_reviewer.Domain.PullRequest.{
  PullRequest, find_lifecycle, project_item, project_lifecycle, none_or_active, project_latest,
  latest_review_items, records, historical_from, historical_items, historical_suggestions,
  review_items, review_suggestions,
}
use pr_auto_reviewer.Domain.PullRequest.Lifecycles.{dismiss_review_items}
use pr_auto_reviewer.Domain.PullRequest.Index.{IsSound}
use pr_auto_reviewer.Domain.PullRequest.Dismissal.{dismiss_review_items_lem}

All-map {ℓ κ μ} :
    {A : Type ℓ} {B : Type κ} (P : B → Type μ) (f : A → B) (xs : List A)
    → ((x : A) → P (f x))
    → All P (map f xs)
All-map P f [] h = tt
All-map P f (x ∷ xs) h = (h x, All-map P f xs h)

project_lifecycle-id :
    (item : ReviewItem) (o : Option ReviewItemLifecycle) → (project_lifecycle item o).id ≡ item.id
project_lifecycle-id item none = refl
project_lifecycle-id item (some l) = refl

pub id-project_item : (pr : PullRequest) (item : ReviewItem) → (project_item pr item).id ≡ item.id
unfolding project_item
id-project_item pr item =
    ground (arith, project_lifecycle-id item (find_lifecycle item.id pr.lifecycles))

project_lifecycle_inactive :
    (item : ReviewItem) (o : Option ReviewItemLifecycle)
    → none_or_active o ≡ false
    → Item.is_active (project_lifecycle item o) ≡ false
project_lifecycle_inactive item none h = cc
project_lifecycle_inactive item (some l) h = h

project_item_inactive :
    (pr : PullRequest) (item : ReviewItem)
    → contains item.id pr.dismissed_item_ids ≡ true
    → Item.is_active (project_item pr item) ≡ false
unfolding project_item
project_item_inactive pr item h =
    elim (Bool-cases (none_or_active (find_lifecycle item.id pr.lifecycles))) [
      | inl a ↦ rw (h, a)
      | inr a ↦ rw (h, a) (project_lifecycle_inactive item (find_lifecycle item.id pr.lifecycles) a)
    ]

-- Which IDs are shown as settled.
abbrev pub Settled : List String → ReviewItem → Type 0
Settled ids item = contains item.id ids ≡ true → Item.is_active item ≡ false

project_item-Settled :
    (pr : PullRequest) (ids : List String)
    → ((k : String) → contains k ids ≡ true → contains k pr.dismissed_item_ids ≡ true)
    → (item : ReviewItem) → Settled ids (project_item pr item)
project_item-Settled pr ids h item m =
    project_item_inactive pr item
      (h item.id (ap (λ k. contains k ids) (sym (id-project_item pr item)) ∙ m))

latest_review_items-Settled :
    (pr : PullRequest) (ids : List String)
    → ((k : String) → contains k ids ≡ true → contains k pr.dismissed_item_ids ≡ true)
    → All (Settled ids) (latest_review_items pr)
unfolding latest_review_items
latest_review_items-Settled pr ids h = latest_case (last pr.reviews)
  where
    latest_case : (o : Option CodeReview) → All (Settled ids) (project_latest pr o)
    latest_case none = tt
    latest_case (some r) =
        All-map (Settled ids) (project_item pr) (records r) (project_item-Settled pr ids h)

-- After `dismiss_review_items` on a sound pull request, no item or suggestion of the latest review
-- whose ID was named is shown as active.
pub latest-dismiss_inactive :
    (pr pr' : PullRequest) (ids : List String)
    → IsSound pr
    → dismiss_review_items pr ids ≡ ok pr'
    → All (Settled ids) (latest_review_items pr')
latest-dismiss_inactive pr pr' ids s h =
    let (q, returns, d) = dismiss_review_items_lem pr ids s in
    let same : q ≡ pr' = ok-injective _ _ (sym returns ∙ h) in
    subst (λ r. All (Settled ids) (latest_review_items r)) same
      (latest_review_items-Settled q ids (λ k m. d.dismissed k ∙ ground (arith, m)))

-- The IDs that are not empty.
abbrev pub named_ids : List ReviewItem → List String
named_ids [] = []
named_ids (item ∷ items) =
    let rest = named_ids items in if truthy item.id then item.id ∷ rest else rest

abbrev pub find_item : String → List ReviewItem → Option ReviewItem
find_item k items = first (λ item. item.id == k) items

abbrev pub unnamed : ReviewItem → Bool
unnamed item = not (truthy item.id)

-- `shown` is the history of `items`.
pub record IsHistoryOf (pr : PullRequest) (items shown : List ReviewItem) : Type 0 where
  pub distinct : Distinct (named_ids shown)
  pub finds :
      (k : String)
      → truthy k ≡ true
      → find_item k shown ≡ Option.map (project_item pr) (find_item k items)
  pub nameless : keep unnamed shown ≡ map (project_item pr) (keep unnamed items)

module _ (pr : PullRequest) where
  contains-historical_from :
      (k : String) (seen : List String) (items : List ReviewItem)
      → contains k (named_ids (historical_from pr seen items))
        ≡ not (contains k seen) && contains k (named_ids items)
  unfolding historical_from contains
  contains-historical_from k seen [] = ground arith
  contains-historical_from k seen (item ∷ items) = ground (
    arith,
    contains-historical_from k (if truthy item.id then add item.id seen else seen) items,
    contains-add k item.id seen,
    id-project_item pr item,
    eq_iff item.id k,
  )

  historical_from-Distinct :
      (seen : List String) (items : List ReviewItem)
      → Distinct (named_ids (historical_from pr seen items))
  unfolding historical_from
  historical_from-Distinct seen [] = tt
  historical_from-Distinct seen (item ∷ items) = ground (
    arith,
    historical_from-Distinct (if truthy item.id then add item.id seen else seen) items,
    contains-historical_from item.id (if truthy item.id then add item.id seen else seen) items,
    contains-add item.id item.id seen,
    id-project_item pr item,
    eq_refl item.id,
  )

  find-historical_from :
      (k : String) (seen : List String) (items : List ReviewItem)
      → truthy k ≡ true
      → contains k seen ≡ false
      → find_item k (historical_from pr seen items)
        ≡ Option.map (project_item pr) (find_item k items)
  unfolding historical_from
  find-historical_from k seen [] t h = refl
  find-historical_from k seen (item ∷ items) t h = ground (
    arith,
    find-historical_from k (if truthy item.id then add item.id seen else seen) items,
    contains-add k item.id seen,
    id-project_item pr item,
    eq_iff item.id k,
  )

  unnamed-historical_from :
      (seen : List String) (items : List ReviewItem)
      → keep unnamed (historical_from pr seen items) ≡ map (project_item pr) (keep unnamed items)
  unfolding historical_from
  unnamed-historical_from seen [] = refl
  unnamed-historical_from seen (item ∷ items) = ground (
    arith,
    unnamed-historical_from (if truthy item.id then add item.id seen else seen) items,
    id-project_item pr item,
  )

  historical_from-IsHistoryOf :
      (items : List ReviewItem) → IsHistoryOf pr items (historical_from pr [] items)
  unfolding contains
  historical_from-IsHistoryOf items = record {
    distinct = historical_from-Distinct [] items;
    finds = λ k t. find-historical_from k [] items t refl;
    nameless = unnamed-historical_from [] items;
  }

-- The historical items and suggestions, over all reviews in order: no ID occurs twice; an ID shows its
-- first occurrence, projected; the records that have no ID are all kept, projected, in order.
pub historical_items_lem :
    (pr : PullRequest)
    → IsHistoryOf pr (review_items pr.reviews) (historical_items pr)
      × IsHistoryOf pr (review_suggestions pr.reviews) (historical_suggestions pr)
unfolding historical_items historical_suggestions
historical_items_lem pr = (
  historical_from-IsHistoryOf pr (review_items pr.reviews),
  historical_from-IsHistoryOf pr (review_suggestions pr.reviews),
)
