-- ===== src/Application/Findings/Deduplicator/Same.antt =====
-- When two findings are duplicates, and what becomes of findings of which no two are.
use pr_auto_reviewer.Prelude.{
  false, ◌≡◌, refl, List, [], ◌∷◌, ◌++◌, sym, append_assoc, append-nil, arith, eq_iff, Option, some,
  none, String, ◌||◌, ◌∙◌, ◌==◌,
}
use mathlib.Core.List.{foldl}
use pr_auto_reviewer.Prelude.Lists.{any, All, All-snoc}
use pr_auto_reviewer.Prelude.Text.{strip}
use pr_auto_reviewer.Prelude.Integers.{ℤ, pos, negsuc, int_eq}
use pr_auto_reviewer.Domain.Category.{IssueCategory}
use pr_auto_reviewer.Domain.Category
use pr_auto_reviewer.Domain.Item.{ReviewItem}
use pr_auto_reviewer.Application.Findings.Deduplicator.{
  same_file, same_code, same_lines, intersects, description_key, parse_lines, is_duplicate, take_in,
  deduplicate,
}

text_eq_comm : (a b : String) → (a == b) ≡ (b == a)
text_eq_comm a b = ground (arith, eq_iff a b, eq_iff b a)

int_eq_comm : (m n : ℤ) → int_eq m n ≡ int_eq n m
int_eq_comm (pos m) (pos n) = ground arith
int_eq_comm (pos m) (negsuc n) = refl
int_eq_comm (negsuc m) (pos n) = refl
int_eq_comm (negsuc m) (negsuc n) = ground arith

intersects-nil : (ms : List ℤ) → intersects ms [] ≡ false
unfolding intersects
intersects-nil [] = refl
intersects-nil (m ∷ ms) = intersects-nil ms

intersects-cons :
    (ms : List ℤ) (n : ℤ) (ns : List ℤ)
    → intersects ms (n ∷ ns) ≡ any (int_eq n) ms || intersects ms ns
unfolding intersects
intersects-cons [] n ns = refl
intersects-cons (m ∷ ms) n ns = ground (arith, int_eq_comm m n, intersects-cons ms n ns)

intersects_comm : (ms ns : List ℤ) → intersects ms ns ≡ intersects ns ms
unfolding intersects
intersects_comm [] ns = ground (arith, intersects-nil ns)
intersects_comm (m ∷ ms) ns = ground (arith, intersects-cons ns m ms, intersects_comm ms ns)

same_file_comm : (p q : Option String) → same_file p q ≡ same_file q p
same_file_comm none none = refl
same_file_comm none (some q) = refl
same_file_comm (some p) none = refl
same_file_comm (some p) (some q) = ground (arith, eq_iff p q, eq_iff q p)

same_code_comm : (a b : String) → same_code a b ≡ same_code b a
unfolding same_code
same_code_comm a b = ground arith

same_lines_comm : (a b : ReviewItem) → same_lines a b ≡ same_lines b a
unfolding same_lines
same_lines_comm a b = ground (
  arith,
  intersects_comm (parse_lines a.line) (parse_lines b.line),
  text_eq_comm (Category.value a.category) (Category.value b.category),
)

-- Whether two findings are duplicates does not depend on their order.
pub is_duplicate_comm : (a b : ReviewItem) → is_duplicate a b ≡ is_duplicate b a
unfolding is_duplicate
is_duplicate_comm a b = ground (
  arith,
  same_file_comm a.file_path b.file_path,
  same_code_comm (strip a.current_code) (strip b.current_code),
  same_lines_comm a b,
  eq_iff (description_key a) (description_key b),
  eq_iff (description_key b) (description_key a),
)

-- No finding is a duplicate of an earlier one.
abbrev pub NoDuplicates : List ReviewItem → Type 0
NoDuplicates [] = Unit
NoDuplicates (item ∷ items) =
    All (λ later. is_duplicate item later ≡ false) items × NoDuplicates items

take_in-new :
    (merged : List ReviewItem) (new : ReviewItem)
    → All (λ e. is_duplicate e new ≡ false) merged
    → take_in merged new ≡ merged ++ new ∷ []
unfolding take_in
take_in-new [] new h = refl
take_in-new (e ∷ es) new h = ground (arith, take_in-new es new h.1)

-- no item of the second list is a duplicate of one of the first
Apart : List ReviewItem → List ReviewItem → Type 0
Apart merged items = All (λ item. All (λ e. is_duplicate e item ≡ false) merged) items

Apart-snoc :
    (merged : List ReviewItem) (new : ReviewItem) (items : List ReviewItem)
    → Apart merged items
    → All (λ later. is_duplicate new later ≡ false) items
    → Apart (merged ++ new ∷ []) items
unfolding Apart
Apart-snoc merged new [] a h = tt
Apart-snoc merged new (i ∷ is) (a, rest) (h, hs) =
    (All-snoc (λ e. is_duplicate e i ≡ false) h merged a, Apart-snoc merged new is rest hs)

loop-NoDuplicates :
    (items merged : List ReviewItem)
    → Apart merged items
    → NoDuplicates items
    → foldl take_in merged items ≡ merged ++ items
unfolding Apart
loop-NoDuplicates [] merged a h = sym (append-nil merged)
loop-NoDuplicates (new ∷ items) merged (a, later) (h, hs) = rw (take_in-new merged new a) (
    loop-NoDuplicates items (merged ++ new ∷ []) (Apart-snoc merged new items later h) hs
    ∙ append_assoc merged (new ∷ []) items)

Apart-nil : (items : List ReviewItem) → Apart [] items
unfolding Apart
Apart-nil [] = tt
Apart-nil (i ∷ is) = (tt, Apart-nil is)

-- Findings of which none is a duplicate of an earlier one come out as they went in, in order.
pub deduplicate-NoDuplicates :
    (items : List ReviewItem) → NoDuplicates items → deduplicate items ≡ items
unfolding deduplicate
deduplicate-NoDuplicates items h = loop-NoDuplicates items [] (Apart-nil items) h
