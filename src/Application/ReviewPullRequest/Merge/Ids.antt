-- ===== src/Application/ReviewPullRequest/Merge/Ids.antt =====
-- `_merge_audited_history`: the IDs of what is new
use pr_auto_reviewer.Prelude.{
  String, true, false, List, [], ◌∷◌, ◌++◌, ◌&&◌, ◌||◌, ◌≡◌, refl, ap, arith, Bool-cases, inl, inr,
  eq_iff, ◌==◌, map, not,
}
use pr_auto_reviewer.Prelude.Sets.{contains, add, Distinct, contains-add, contains-append}
use pr_auto_reviewer.Prelude.Text.{truthy, or_else}
use pr_auto_reviewer.Prelude.Lists.{keep}
use pr_auto_reviewer.Domain.Item.{ReviewItem}
use pr_auto_reviewer.Domain.Renaming.{IsRenaming, IsRenaming-same}
use pr_auto_reviewer.Domain.Status.{created}
use pr_auto_reviewer.Application.ReviewPullRequest.Merge.{repeats, fresh_id, prepare, renumber}

abbrev pub ids_of : List ReviewItem → List String
ids_of items = map (λ item. item.id) items

-- a record that is seen for the first time
abbrev pub as_new : ReviewItem → ReviewItem
as_new item = record item {
  status = created;
  status_explanation = or_else item.status_explanation "First appearance in review";
}

-- The entries that repeat no active audited record, as new records.
abbrev pub newly_shown : List ReviewItem → List ReviewItem → List ReviewItem
newly_shown audited entries = map as_new (keep (λ item. not (repeats audited item)) entries)

-- New IDs, none of them reserved before and all of them reserved after.
pub record AreFresh (reserved ids reserved' : List String) : Type 0 where
  pub distinct : Distinct ids
  pub absent : (k : String) → contains k ids && contains k reserved ≡ false
  pub reserves : (k : String) → contains k reserved' ≡ contains k reserved || contains k ids
  pub unnamed : contains "" ids ≡ false

not_empty : (id : String) → truthy id ≡ true → (id == "") ≡ false
not_empty id h = elim (Bool-cases (id == "")) [
  | inl e ↦ ground (arith, ap truthy ((eq_iff id "").0 e), h)
  | inr ne ↦ ne
]

module _ (generate_id : List String → String)
    (generates : (reserved : List String)
      → (truthy (generate_id reserved) ≡ true)
        × (contains (generate_id reserved) reserved ≡ false)) where
  fresh_id_lem :
      (reserved : List String) (id : String)
      → (truthy (fresh_id generate_id reserved id) ≡ true)
        × (contains (fresh_id generate_id reserved id) reserved ≡ false)
  unfolding fresh_id
  fresh_id_lem reserved id = ground (arith, generates reserved)

  no_ids : (reserved : List String) → AreFresh reserved [] reserved
  unfolding contains
  no_ids reserved = record {
    distinct = tt;
    absent = λ k. refl;
    reserves = λ k. ground arith;
    unnamed = refl;
  }

  one_more :
      (reserved : List String) (id : String) (ids reserved' : List String)
      → truthy id ≡ true
      → contains id reserved ≡ false
      → AreFresh (add id reserved) ids reserved'
      → AreFresh reserved (id ∷ ids) reserved'
  unfolding contains
  one_more reserved id ids reserved' t c f = record {
    distinct = (ground (arith, f.absent id, contains-add id id reserved, eq_iff id id), f.distinct);
    absent = λ k. ground (arith, f.absent k, contains-add k id reserved, eq_iff id k, c);
    reserves = λ k. ground (arith, f.reserves k, contains-add k id reserved, eq_iff id k);
    unnamed = ground (arith, f.unnamed, not_empty id t);
  }

  pub prepare-AreFresh :
      (audited : List ReviewItem) (reserved : List String) (entries : List ReviewItem)
      → let (items, reserved') = prepare generate_id audited reserved entries in
        AreFresh reserved (ids_of items) reserved'
  unfolding prepare
  prepare-AreFresh audited reserved [] = no_ids reserved
  prepare-AreFresh audited reserved (entry ∷ entries) =
      let id = fresh_id generate_id reserved entry.id in
      let (t, c) = fresh_id_lem reserved entry.id in
      elim (Bool-cases (repeats audited entry)) [
        | inl skipped ↦ rw skipped (prepare-AreFresh audited reserved entries)
        | inr new ↦ rw new (
            one_more reserved id (ids_of (prepare generate_id audited (add id reserved) entries).0)
              (prepare generate_id audited (add id reserved) entries).1 t c
              (prepare-AreFresh audited (add id reserved) entries))
      ]

  pub renumber-AreFresh :
      (reserved : List String) (entries : List ReviewItem)
      → let (praise, reserved') = renumber generate_id reserved entries in
        AreFresh reserved (ids_of praise) reserved'
  unfolding renumber
  renumber-AreFresh reserved [] = no_ids reserved
  renumber-AreFresh reserved (entry ∷ entries) =
      let id = fresh_id generate_id reserved entry.id in
      let (t, c) = fresh_id_lem reserved entry.id in
      one_more reserved id (ids_of (renumber generate_id (add id reserved) entries).0)
        (renumber generate_id (add id reserved) entries).1 t c
        (renumber-AreFresh (add id reserved) entries)

  fresh_id_kept :
      (reserved : List String) (id : String)
      → truthy id ≡ true
      → contains id reserved ≡ false
      → fresh_id generate_id reserved id ≡ id
  unfolding fresh_id
  fresh_id_kept reserved id t c = rw (t, c) refl

  -- the records that `prepare` takes over, under their old IDs
  pub prepare-IsRenaming :
      (audited : List ReviewItem) (reserved : List String) (entries : List ReviewItem)
      → IsRenaming reserved
          (newly_shown audited entries)
          (prepare generate_id audited reserved entries).0
  unfolding prepare contains
  prepare-IsRenaming audited reserved [] = tt
  prepare-IsRenaming audited reserved (entry ∷ entries) =
      let id = fresh_id generate_id reserved entry.id in
      elim (Bool-cases (repeats audited entry)) [
        | inl skipped ↦ rw skipped (prepare-IsRenaming audited reserved entries)
        | inr new ↦ rw new (
          refl,
          fresh_id_kept reserved entry.id,
          IsRenaming-same (add id reserved) (id ∷ reserved) (newly_shown audited entries) _
              (λ k. ground (arith, contains-add k id reserved, eq_iff id k))
              (prepare-IsRenaming audited (add id reserved) entries),
        )
      ]

  pub renumber-IsRenaming :
      (reserved : List String) (entries : List ReviewItem)
      → IsRenaming reserved entries (renumber generate_id reserved entries).0
  unfolding renumber contains
  renumber-IsRenaming reserved [] = tt
  renumber-IsRenaming reserved (entry ∷ entries) =
      let id = fresh_id generate_id reserved entry.id in
      (
        refl,
        fresh_id_kept reserved entry.id,
        IsRenaming-same (add id reserved) (id ∷ reserved) entries _
            (λ k. ground (arith, contains-add k id reserved, eq_iff id k))
            (renumber-IsRenaming (add id reserved) entries),
      )

  append-Distinct :
      (xs ys : List String)
      → Distinct xs
      → Distinct ys
      → ((k : String) → contains k xs && contains k ys ≡ false)
      → Distinct (xs ++ ys)
  unfolding contains
  append-Distinct [] ys dx dy h = dy
  append-Distinct (x ∷ xs) ys dx dy h = (
    ground (arith, h x, contains-append x xs ys, dx, eq_iff x x),
    append-Distinct xs ys dx.1 dy (λ k. ground (arith, h k)),
  )

  pub AreFresh-append :
      (r r' r'' ids ids' : List String)
      → AreFresh r ids r'
      → AreFresh r' ids' r''
      → AreFresh r (ids ++ ids') r''
  AreFresh-append r r' r'' ids ids' f g = record {
    distinct =
        append-Distinct ids ids' f.distinct g.distinct
          (λ k. ground (arith, g.absent k, f.reserves k));
    absent = λ k. ground (arith, contains-append k ids ids', f.absent k, g.absent k, f.reserves k);
    reserves = λ k. ground (arith, contains-append k ids ids', f.reserves k, g.reserves k);
    unnamed = ground (arith, contains-append "" ids ids', f.unnamed, g.unnamed);
  }
