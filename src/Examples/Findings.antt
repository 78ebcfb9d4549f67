-- ===== src/Examples/Findings.antt =====
-- Findings of two phases: deduplicated and aggregated; a cited path resolved.
use pr_auto_reviewer.Prelude.{
  String, ◌||◌, [], ◌∷◌, List, ◌⊎◌, none, some, ◌≡◌, ◌≤◌, refl, true, false, map, ◌==◌,
}
use pr_auto_reviewer.Prelude.Integers.{int, split, partition, isdigit, pos, range_between}
use pr_auto_reviewer.Prelude.Lists.{All, Any, length}
use pr_auto_reviewer.Prelude.Result.{ok, raise, review_verdict}
use pr_auto_reviewer.Prelude.Text.{truthy, strip}
use pr_auto_reviewer.Prelude.Words.{append, show, ends_with}
use pr_auto_reviewer.Domain.Severity.{info, critical}
use pr_auto_reviewer.Domain.Category.{bug, security}
use pr_auto_reviewer.Domain.Item.{ReviewItem, new_item, is_blocking}
use pr_auto_reviewer.Domain.Verdict.{commented}
use pr_auto_reviewer.Domain.Review.{CodeReview}
use pr_auto_reviewer.Domain.CitedPath.{
  Files, resolve_file_path, clean_changed_file, match_rank, lstrip_slash, candidates, listed,
  best_of, first_sorted,
}
use pr_auto_reviewer.Domain.CitedPath.Chosen.{
  IsChosen, is_whole, is_tail, is_name, cleaned_files, resolve_file_path_lem,
}
use pr_auto_reviewer.Domain.PhaseResult.{PhaseResult}
use pr_auto_reviewer.Application.Findings.Deduplicator.{
  deduplicate, is_duplicate, parse_lines, merge_duplicate, take_in, same_code, same_lines,
  description_key, intersects,
}
use pr_auto_reviewer.Application.Findings.Deduplicator.Kept.{StandsFor, Says, deduplicate_lem}
use pr_auto_reviewer.Application.Findings.Deduplicator.Same.{
  is_duplicate_comm, deduplicate-NoDuplicates,
}
use pr_auto_reviewer.Application.Findings.Aggregator.{
  AggregateReviewFindingsCommand, execute, verdict_of, cited_items, get,
}
use pr_auto_reviewer.Application.Findings.Aggregator.Review.{
  IsHarmless, StillBlocks, execute-StillBlocks, cited_items_lem,
}
use pr_auto_reviewer.Examples.Samples.{blocker, nit}

-- the same place, seen as a graver matter
abbrev graver : ReviewItem
graver = new_item critical bug (some "src/a.py") "crash on None" "11" "" "" "guard it"

test_parse_lines : parse_lines "3, 7-5,x,9-" ≡ pos 3 ∷ pos 5 ∷ pos 6 ∷ pos 7 ∷ []
unfolding parse_lines split partition int isdigit range_between strip
test_parse_lines = refl

test_show : show 1203 ≡ "1203"
unfolding show
test_show = refl

abbrev all_items : List ReviewItem
all_items = blocker ∷ nit ∷ graver ∷ []

test_deduplicate :
    deduplicate all_items
    ≡ new_item critical bug (some "src/a.py") "crash on None" "11" "a1b2" "x = y.z" "guard it"
      ∷ nit
      ∷ []
unfolding deduplicate take_in is_duplicate merge_duplicate same_code same_lines description_key
    intersects parse_lines split partition int isdigit range_between strip
test_deduplicate = refl

deduplicate_lem_example :
    (length (deduplicate all_items) ≤ 3)
    × All (λ item. Any (StandsFor item) (deduplicate all_items)) all_items
    × All (λ out. Any (Says out) all_items) (deduplicate all_items)
deduplicate_lem_example = deduplicate_lem all_items

is_duplicate_comm_example : is_duplicate blocker graver ≡ is_duplicate graver blocker
is_duplicate_comm_example = is_duplicate_comm blocker graver

deduplicate-NoDuplicates_example : deduplicate (blocker ∷ nit ∷ []) ≡ blocker ∷ nit ∷ []
unfolding is_duplicate same_code same_lines description_key strip intersects parse_lines split
    partition int isdigit range_between
deduplicate-NoDuplicates_example =
    deduplicate-NoDuplicates (blocker ∷ nit ∷ []) ((refl, tt), (tt, tt))

abbrev files : Files
files = record {
  is_absolute = λ p. false;
  resolve = λ p. p;
  relative_to_root = λ p. none;
  as_posix = λ p. p;
  exists = λ p. p == "README.md";
}

abbrev changed : List String
changed = "b/lib/core/a.py" ∷ "src/a.py" ∷ []

test_resolve : resolve_file_path files "a.py" changed ≡ some "src/a.py"
unfolding resolve_file_path candidates listed match_rank clean_changed_file lstrip_slash ends_with
    best_of first_sorted append
test_resolve = refl

resolve_file_path_lem_example :
    ((resolve_file_path files "a.py" changed ≡ none)
      × All
          (λ p. is_whole "a.py" p || is_tail "a.py" p || is_name "a.py" p ≡ false)
          (cleaned_files files changed))
    ⊎ ((path : String) × (resolve_file_path files "a.py" changed ≡ some path)
        × Any (λ p. p ≡ path) (cleaned_files files changed)
        × IsChosen "a.py" path (cleaned_files files changed))
unfolding lstrip_slash
resolve_file_path_lem_example = resolve_file_path_lem files "a.py" changed refl refl

abbrev phase : PhaseResult
phase = record {
  items = all_items;
  llm_verdict = some "approved";
  llm_reason = "";
  llm_summary = "";
  llm_suggestions = (("description", "rename x") ∷ ("id", "s1") ∷ []) ∷ [];
  llm_praise = (("description", "good tests") ∷ []) ∷ [];
  turn_count = 2;
  read_file_calls = 1;
  read_file_paths = "src/a.py" ∷ [];
  run_snippet_calls = 0;
  unread_changed_files = [];
  skip_reasons = [];
}

abbrev command : AggregateReviewFindingsCommand
command = record {
  items = all_items;
  model_used = "m";
  phase_result = some phase;
  suggestions_phase_result = none;
  repo_path = some files;
  changed_files = changed;
}

cited_items_lem_example :
    let (suggestions, praise) = cited_items (λ n. "f00d") command in
    (map (λ item. item.description) suggestions
      ≡ map (λ entry. get entry "description") phase.llm_suggestions)
    × All IsHarmless suggestions
    × All IsHarmless praise
cited_items_lem_example = cited_items_lem (λ n. "f00d") (λ n. refl) command phase refl

execute-StillBlocks_example :
    ((execute (λ items. "Found issues.") (λ n. "f00d") command ≡ raise review_verdict)
      × ((verdict_of (deduplicate all_items) (some phase) ≡ commented) ⊎ (truthy "m" ≡ false)))
    ⊎ ((review : CodeReview) × (execute (λ items. "Found issues.") (λ n. "f00d") command
          ≡ ok review)
        × (review.items ≡ deduplicate all_items)
        × (review.verdict ≡ verdict_of (deduplicate all_items) (some phase))
        × (truthy review.reason ≡ true)
        × (truthy review.summary ≡ true)
        × All (StillBlocks review.items) all_items)
execute-StillBlocks_example =
    execute-StillBlocks (λ items. "Found issues.") (λ n. "f00d") command refl

-- A blocking security finding that is merged into a graver one of another category.
abbrev leak : ReviewItem
leak = new_item info security (some "src/b.py") "token in log" "3" "" "log(token)" ""

test_merged_leak :
    map is_blocking (deduplicate (leak ∷ record nit { current_code = "log(token)" } ∷ []))
    ≡ false ∷ []
unfolding deduplicate take_in is_duplicate merge_duplicate same_code same_lines description_key
    intersects parse_lines split partition int isdigit range_between strip
test_merged_leak = refl
