-- ===== src/Application/Findings/Deduplicator/Kept.antt =====
-- The findings that come out of a deduplication, against those that went in.
use pr_auto_reviewer.Prelude.{
  ◌+◌, ◌≤◌, true, ◌≡◌, refl, ◌⊎◌, inl, inr, List, [], ◌∷◌, arith, eq_iff, Option, some, none,
  String,
}
use mathlib.Core.List.{foldl}
use pr_auto_reviewer.Prelude.Lists.{length, All, Any, Any-mono, All-self}
use pr_auto_reviewer.Domain.Item.{ReviewItem}
use pr_auto_reviewer.Application.Findings.Deduplicator.{
  severity_rank, same_file, is_duplicate, merge_duplicate, take_in, deduplicate,
}

same_file-eq : (p q : Option String) → same_file p q ≡ true → p ≡ q
same_file-eq (some p) (some q) h = ground (arith, eq_iff p q)
same_file-eq (some p) none h = ground arith
same_file-eq none q h = ground arith

is_duplicate-file_path : (a b : ReviewItem) → is_duplicate a b ≡ true → a.file_path ≡ b.file_path
unfolding is_duplicate
is_duplicate-file_path a b h = same_file-eq a.file_path b.file_path (ground arith)

-- `out` stands for `item`: it is in the same file and at least as severe.
unfoldable pub StandsFor : ReviewItem → ReviewItem → Type 0
StandsFor item out =
    (out.file_path ≡ item.file_path) × (severity_rank item.severity ≤ severity_rank out.severity)

-- `out` says what `item` says: severity, category, file and description are its own.
unfoldable pub Says : ReviewItem → ReviewItem → Type 0
Says out item =
    (out.severity ≡ item.severity)
    × (out.category ≡ item.category)
    × (out.file_path ≡ item.file_path)
    × (out.description ≡ item.description)

merge_duplicate-StandsFor :
    (item existing new : ReviewItem)
    → is_duplicate existing new ≡ true
    → StandsFor item existing ⊎ StandsFor item new
    → StandsFor item (merge_duplicate existing new)
unfolding merge_duplicate StandsFor
merge_duplicate-StandsFor item existing new h c =
    ground (arith, is_duplicate-file_path existing new h)

merge_duplicate-Says :
    (existing new : ReviewItem)
    → Says (merge_duplicate existing new) existing ⊎ Says (merge_duplicate existing new) new
unfolding merge_duplicate Says
merge_duplicate-Says existing new = ground arith

-- One turn of the loop keeps what stands for an item, and adds what stands for the new one.
take_in-StandsFor :
    (item new : ReviewItem) (merged : List ReviewItem)
    → Any (StandsFor item) merged ⊎ StandsFor item new
    → Any (StandsFor item) (take_in merged new)
unfolding take_in
take_in-StandsFor item new [] (inl h) = elim h [ ]
take_in-StandsFor item new [] (inr h) = inl h
take_in-StandsFor item new (e ∷ es) c =
    ground (arith, merge_duplicate-StandsFor item e new, take_in-StandsFor item new es)

loop-StandsFor :
    (item : ReviewItem) (items merged : List ReviewItem)
    → Any (StandsFor item) merged
    → Any (StandsFor item) (foldl take_in merged items)
loop-StandsFor item [] merged h = h
loop-StandsFor item (new ∷ items) merged h =
    loop-StandsFor item items (take_in merged new) (take_in-StandsFor item new merged (inl h))

StandsFor-refl : (item : ReviewItem) → StandsFor item item
unfolding StandsFor
StandsFor-refl item = (refl, omega arith)

loop-AllStandFor :
    (items merged : List ReviewItem)
    → All (λ item. Any (StandsFor item) (foldl take_in merged items)) items
loop-AllStandFor [] merged = tt
loop-AllStandFor (new ∷ items) merged = (
  loop-StandsFor new items (take_in merged new)
      (take_in-StandsFor new new merged (inr (StandsFor-refl new))),
  loop-AllStandFor items (take_in merged new),
)

-- What a finding says that comes out of the loop, some given finding says.
IsSaid : List ReviewItem → ReviewItem → Type 0
IsSaid given out = Any (Says out) given

Says-trans : (a b c : ReviewItem) → Says a b → Says b c → Says a c
unfolding Says
Says-trans a b c p q = ground arith

merge_duplicate-IsSaid :
    (given : List ReviewItem) (a b : ReviewItem)
    → IsSaid given a
    → IsSaid given b
    → IsSaid given (merge_duplicate a b)
unfolding IsSaid
merge_duplicate-IsSaid given a b p q = elim (merge_duplicate-Says a b) [
  | inl s ↦
      Any-mono (Says a) (Says (merge_duplicate a b))
        (λ o h. Says-trans (merge_duplicate a b) a o s h) given p
  | inr s ↦
      Any-mono (Says b) (Says (merge_duplicate a b))
        (λ o h. Says-trans (merge_duplicate a b) b o s h) given q
]

take_in-IsSaid :
    (given : List ReviewItem) (new : ReviewItem)
    → IsSaid given new
    → (merged : List ReviewItem) → All (IsSaid given) merged
    → All (IsSaid given) (take_in merged new)
unfolding take_in
take_in-IsSaid given new n [] h = (n, tt)
take_in-IsSaid given new n (e ∷ es) h =
    ground (arith, merge_duplicate-IsSaid given e new, take_in-IsSaid given new n es)

loop-IsSaid :
    (given items merged : List ReviewItem)
    → All (IsSaid given) items
    → All (IsSaid given) merged
    → All (IsSaid given) (foldl take_in merged items)
loop-IsSaid given [] merged n h = h
loop-IsSaid given (new ∷ items) merged (n, ns) h =
    loop-IsSaid given items (take_in merged new) ns (take_in-IsSaid given new n merged h)

length-take_in :
    (merged : List ReviewItem) (new : ReviewItem) → length (take_in merged new) ≤ length merged + 1
unfolding take_in
length-take_in [] new = omega arith
length-take_in (e ∷ es) new = ground (arith, length-take_in es new)

loop-length :
    (items merged : List ReviewItem)
    → length (foldl take_in merged items) ≤ length merged + length items
loop-length [] merged = omega arith
loop-length (new ∷ items) merged =
    omega (arith, loop-length items (take_in merged new), length-take_in merged new)

Says-refl : (item : ReviewItem) → Says item item
unfolding Says
Says-refl item = (refl, refl, refl, refl)

-- Deduplication never adds a finding. Every finding that goes in is stood for by one that comes out,
-- in the same file and at least as severe; and every finding that comes out has the severity, the
-- category, the file and the description of one that went in.
pub deduplicate_lem :
    (items : List ReviewItem)
    → (length (deduplicate items) ≤ length items)
      × All (λ item. Any (StandsFor item) (deduplicate items)) items
      × All (λ out. Any (Says out) items) (deduplicate items)
unfolding deduplicate IsSaid
deduplicate_lem items = (
  omega (arith, loop-length items []),
  loop-AllStandFor items [],
  loop-IsSaid items items [] (All-self Says Says-refl items) tt,
)
