-- ===== src/Application/Findings/Deduplicator.antt =====
-- application/services/finding_deduplicator_service.py. A set of line numbers is a list of integers.
pub mod Kept
pub mod Same
use pr_auto_reviewer.Prelude.{
  ℕ, String, Bool, true, false, List, [], ◌∷◌, ◌++◌, Option, none, some, not, ◌&&◌, ◌||◌, ◌==◌, ltb,
  if◌then◌else◌,
}
use mathlib.Core.List.{foldl}
use pr_auto_reviewer.Prelude.Integers.{ℤ, split, partition, int, isdigit, int_eq, range_between}
use pr_auto_reviewer.Prelude.Lists.{any}
use pr_auto_reviewer.Prelude.Text.{truthy, or_else, strip, occurs}
use pr_auto_reviewer.Domain.Severity.{ItemSeverity, critical, major, minor, info}
use pr_auto_reviewer.Domain.Category.{IssueCategory}
use pr_auto_reviewer.Domain.Category
use pr_auto_reviewer.Domain.Item.{ReviewItem, new_item}

abbrev duplicate_suffix : String
duplicate_suffix = ". This was previously identified but may have additional instances."

-- `s.removesuffix(suffix)`, where `suffix` is not empty
remove_suffix : String → String → String
remove_suffix suffix String.[] = ""
remove_suffix suffix (String.◌∷◌ c s) =
    let rest = remove_suffix suffix s in if String.◌∷◌ c s == suffix then "" else String.◌∷◌ c rest

-- `_SEVERITY_RANKS`
abbrev pub severity_rank : ItemSeverity → ℕ
severity_rank critical = 4
severity_rank major = 3
severity_rank minor = 2
severity_rank info = 1

-- the numbers of a part with a dash in it
dashed : Option ℤ → Option ℤ → List ℤ
unfolding range_between
dashed (some start) (some end) = range_between start end
dashed _ _ = []

part_lines : String → Option (String × String) → List ℤ
unfolding dashed int isdigit
part_lines part (some (start_text, end_text)) = dashed (int start_text) (int end_text)
part_lines part none = if isdigit part then whole (int part) else []
  where
    whole : Option ℤ → List ℤ
    whole none = []
    whole (some n) = n ∷ []

parts_lines : List String → List ℤ
unfolding part_lines strip partition
parts_lines [] = []
parts_lines (part ∷ parts) =
    part_lines (strip part) (partition b'-' (strip part)) ++ parts_lines parts

unfoldable pub parse_lines : String → List ℤ
unfolding parts_lines split
parse_lines line_text = parts_lines (split b',' line_text)

-- `first_lines.intersection(second_lines)` is not empty
unfoldable pub intersects : List ℤ → List ℤ → Bool
intersects first_lines second_lines = any (λ n. any (int_eq n) second_lines) first_lines

-- `not first.file_path or first.file_path != second.file_path`, negated
abbrev pub same_file : Option String → Option String → Bool
same_file (some p) (some q) = truthy p && p == q
same_file _ _ = false

unfoldable pub description_key : ReviewItem → String
unfolding remove_suffix strip
description_key item = strip (remove_suffix duplicate_suffix item.description)

unfoldable pub same_code : String → String → Bool
same_code first_code second_code =
    truthy first_code
    && truthy second_code
    && (occurs first_code second_code || occurs second_code first_code)

-- `first.category == second.category`
abbrev pub same_category : IssueCategory → IssueCategory → Bool
same_category c d = Category.value c == Category.value d

unfoldable pub same_lines : ReviewItem → ReviewItem → Bool
unfolding intersects parse_lines strip
same_lines one two =
    truthy one.line
    && truthy two.line
    && intersects (parse_lines one.line) (parse_lines two.line)
    && (truthy (strip one.current_code) && truthy (strip two.current_code)
        || same_category one.category two.category)

unfoldable pub is_duplicate : ReviewItem → ReviewItem → Bool
unfolding description_key same_code same_lines strip
is_duplicate one two =
    same_file one.file_path two.file_path
    && (truthy (description_key one) && description_key one == description_key two
        || same_code (strip one.current_code) (strip two.current_code)
        || same_lines one two)

unfoldable pub merge_duplicate : ReviewItem → ReviewItem → ReviewItem
merge_duplicate existing new =
    if ltb (severity_rank existing.severity) (severity_rank new.severity)
    then enrich new existing
    else enrich existing new
  where
    enrich : ReviewItem → ReviewItem → ReviewItem
    enrich primary secondary =
        new_item primary.severity primary.category primary.file_path primary.description
          (or_else primary.line secondary.line) (or_else primary.id secondary.id)
          (or_else primary.current_code secondary.current_code)
          (or_else primary.suggested_fix secondary.suggested_fix)

-- One turn of the loop: the item is merged into the first of which it is a duplicate, or else stands
-- at the end.
unfoldable pub take_in : List ReviewItem → ReviewItem → List ReviewItem
unfolding is_duplicate merge_duplicate
take_in [] item = item ∷ []
take_in (existing ∷ merged) item =
    let rest = take_in merged item in
    if is_duplicate existing item then merge_duplicate existing item ∷ merged else existing ∷ rest

unfoldable pub deduplicate : List ReviewItem → List ReviewItem
unfolding take_in
deduplicate items = foldl take_in [] items
