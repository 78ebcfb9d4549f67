-- ===== src/Application/IssueCommands/Partition.antt =====
-- The three lists into which the IDs of a command are sorted.
use pr_auto_reviewer.Prelude.{
  String, Bool, true, false, ◌≡◌, refl, List, [], ◌∷◌, ◌++◌, Option, none, some, not, ◌&&◌, ◌==◌,
  arith, append-nil, sym, append_assoc, ap, ◌∙◌,
}
use pr_auto_reviewer.Prelude.Dict.{lookup, insert, lookup-insert}
use pr_auto_reviewer.Prelude.Lists.{keep, last}
use pr_auto_reviewer.Domain.Item.{ReviewItem, is_open, is_blocking}
use pr_auto_reviewer.Application.IssueCommands.{
  SortedIds, items_by_id, sort_id, sort_ids, partition_item_ids,
}

-- the last of the items with an ID
abbrev pub named : List ReviewItem → String → Option ReviewItem
named items k = last (keep (λ item. item.id == k) items)

-- open and not blocking
abbrev pub is_negligible : Option ReviewItem → Bool
is_negligible none = false
is_negligible (some item) = is_open item && not (is_blocking item)

abbrev pub is_protected : Option ReviewItem → Bool
is_protected none = false
is_protected (some item) = not (is_open item && not (is_blocking item))

abbrev pub is_missing : Option ReviewItem → Bool
is_missing none = true
is_missing (some item) = false

abbrev or_option : Option ReviewItem → Option ReviewItem → Option ReviewItem
or_option none b = b
or_option (some a) b = some a

last-cons :
    (item : ReviewItem) (items : List ReviewItem)
    → last (item ∷ items) ≡ or_option (last items) (some item)
last-cons item [] = refl
last-cons item (i ∷ []) = refl
last-cons item (i ∷ j ∷ is) = ground (arith, last-cons i (j ∷ is))

lookup-items_by_id :
    (k : String) (by_id : List (String × ReviewItem)) (items : List ReviewItem)
    → lookup k (items_by_id by_id items) ≡ or_option (named items k) (lookup k by_id)
unfolding items_by_id
lookup-items_by_id k by_id [] = refl
lookup-items_by_id k by_id (item ∷ items) = ground (
  arith,
  lookup-items_by_id k (insert item.id item by_id) items,
  lookup-insert k item.id item by_id,
  last-cons item (keep (λ item. item.id == k) items),
)

-- each list, after a loop that starts with `p`
sorted_from :
    (Option ReviewItem → Bool)
    → List (String × ReviewItem)
    → List String
    → List String
    → List String
sorted_from test by_id before requested = before ++ keep (λ k. test (lookup k by_id)) requested

sort_ids-keep :
    (by_id : List (String × ReviewItem)) (p : SortedIds) (requested : List String)
    → (let q = sort_ids by_id p requested in
        (q.valid ≡ sorted_from is_negligible by_id p.valid requested)
        × (q.rejected ≡ sorted_from is_protected by_id p.rejected requested)
        × (q.unknown ≡ sorted_from is_missing by_id p.unknown requested))
unfolding sort_ids sorted_from sort_id
sort_ids-keep by_id p [] =
    (sym (append-nil p.valid), sym (append-nil p.rejected), sym (append-nil p.unknown))
sort_ids-keep by_id p (k ∷ requested) = ground (
  arith,
  sort_ids-keep by_id (sort_id (lookup k by_id) k p) requested,
  append_assoc p.valid (k ∷ []) (keep (λ k. is_negligible (lookup k by_id)) requested),
  append_assoc p.rejected (k ∷ []) (keep (λ k. is_protected (lookup k by_id)) requested),
  append_assoc p.unknown (k ∷ []) (keep (λ k. is_missing (lookup k by_id)) requested),
)

keep-same :
    (test test' : String → Bool)
    → ((k : String) → test k ≡ test' k)
    → (ks : List String) → keep test ks ≡ keep test' ks
keep-same test test' same [] = refl
keep-same test test' same (k ∷ ks) = ground (arith, same k, keep-same test test' same ks)

or_option-none : (o : Option ReviewItem) → or_option o none ≡ o
or_option-none none = refl
or_option-none (some item) = refl

lookup-named :
    (items : List ReviewItem) (k : String) → lookup k (items_by_id [] items) ≡ named items k
unfolding lookup
lookup-named items k = lookup-items_by_id k [] items ∙ or_option-none (named items k)

sorted-partition :
    (test : Option ReviewItem → Bool) (items : List ReviewItem) (requested : List String)
    → sorted_from test (items_by_id [] items) [] requested
      ≡ keep (λ k. test (named items k)) requested
unfolding sorted_from
sorted-partition test items requested =
    keep-same (λ k. test (lookup k (items_by_id [] items))) (λ k. test (named items k))
      (λ k. ap test (lookup-named items k)) requested

-- Each list holds the requested IDs that pass a test, in order and as often as they are requested: an ID is
-- valid where the last item of that ID is open and not blocking, rejected where there is another item, and
-- unknown where there is none.
pub partition_item_ids_lem :
    (requested : List String) (items : List ReviewItem)
    → let p = partition_item_ids requested items in
      (p.valid ≡ keep (λ k. is_negligible (named items k)) requested)
      × (p.rejected ≡ keep (λ k. is_protected (named items k)) requested)
      × (p.unknown ≡ keep (λ k. is_missing (named items k)) requested)
unfolding partition_item_ids
partition_item_ids_lem requested items =
    let (v, r, u) =
      sort_ids-keep (items_by_id [] items) (record { valid = []; rejected = []; unknown = [] })
        requested in
    (
      v ∙ sorted-partition is_negligible items requested,
      r ∙ sorted-partition is_protected items requested,
      u ∙ sorted-partition is_missing items requested,
    )
