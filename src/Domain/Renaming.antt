-- ===== src/Domain/Renaming.antt =====
-- Items that are given IDs of their own, one after the other: what
-- domain/services/review_item_factory.py, `ensure_unique_ids`, and review_pull_request_service.py,
-- `_merge_audited_history`, have in common
use pr_auto_reviewer.Prelude.{String, true, false, List, [], ◌∷◌, ◌≡◌, sym, ◌∙◌, arith}
use pr_auto_reviewer.Prelude.Sets.{contains}
use pr_auto_reviewer.Prelude.Text.{truthy}
use pr_auto_reviewer.Domain.Item.{ReviewItem}

-- The items are those given, in their order, up to the ID; and a given ID that is not empty stays,
-- unless it is among `used` or an item before it has it.
abbrev pub IsRenaming : List String → List ReviewItem → List ReviewItem → Type 0
IsRenaming used [] [] = Unit
IsRenaming used [] (item ∷ items) = ⊥
IsRenaming used (g ∷ given) [] = ⊥
IsRenaming used (g ∷ given) (item ∷ items) =
    (record item { id = "" } ≡ record g { id = "" })
    × (truthy g.id ≡ true → contains g.id used ≡ false → item.id ≡ g.id)
    × IsRenaming (item.id ∷ used) given items

-- Only what `used` contains matters.
pub IsRenaming-same :
    (used used' : List String) (given items : List ReviewItem)
    → ((k : String) → contains k used' ≡ contains k used)
    → IsRenaming used given items
    → IsRenaming used' given items
unfolding contains
IsRenaming-same used used' [] [] same h = tt
IsRenaming-same used used' [] (item ∷ items) same h = h
IsRenaming-same used used' (g ∷ given) [] same h = h
IsRenaming-same used used' (g ∷ given) (item ∷ items) same (e, k, rest) = (
  e,
  (λ t c. k t (sym (same g.id) ∙ c)),
  IsRenaming-same (item.id ∷ used) (item.id ∷ used') given items (λ j. ground (arith, same j)) rest,
)
