-- ===== src/Application/Findings/Aggregator.antt =====
-- application/services/finding_aggregator_service.py. The reason factory and the generator of IDs are
-- parameters: `make_reason`, and `generated n` for the result of the call number `n`.
pub mod Review
use pr_auto_reviewer.Prelude.{
  ℕ, suc, String, Bool, true, false, List, [], ◌∷◌, ◌++◌, Option, none, some, not, ◌&&◌, ◌||◌, ◌==◌,
  map, nat_eq, if◌then◌else◌, is_some, zero,
}
use pr_auto_reviewer.Prelude.Dict.{lookup}
use pr_auto_reviewer.Prelude.Lists.{any, keep, length}
use pr_auto_reviewer.Prelude.Result.{Result}
use pr_auto_reviewer.Prelude.Sets.{union}
use pr_auto_reviewer.Prelude.Text.{truthy, or_else, strip, lower}
use pr_auto_reviewer.Prelude.Words.{append, join, show, sorted}
use pr_auto_reviewer.Domain.Severity.{info}
use pr_auto_reviewer.Domain.Severity
use pr_auto_reviewer.Domain.Category.{general}
use pr_auto_reviewer.Domain.Item.{ReviewItem, new_item, is_blocking}
use pr_auto_reviewer.Domain.Verdict.{ReviewVerdict, coerce}
use pr_auto_reviewer.Domain.Review.{CodeReview, new_review, verdict_for}
use pr_auto_reviewer.Domain.CitedPath.{Files, normalize_file_path}
use pr_auto_reviewer.Domain.PhaseResult.{PhaseResult, Entry}
use pr_auto_reviewer.Application.Findings.Deduplicator.{deduplicate}
use pr_auto_reviewer.Application.Findings.Summary.{
  or_empty, build_summary, reason_for_merged, summary_of, reason_of,
}

pub record AggregateReviewFindingsCommand : Type 0 where
  pub items : List ReviewItem
  pub model_used : String
  pub phase_result : Option PhaseResult
  pub suggestions_phase_result : Option PhaseResult
  pub repo_path : Option Files
  pub changed_files : List String

-- `entry.get(key, "")`
unfoldable pub get : Entry → String → String
unfolding lookup
get entry key = elim (lookup key entry) [ none ↦ "" | some text ↦ text ]

abbrev says : Option String → String → Bool
says none text = false
says (some found) text = found == text

-- two dictionaries are equal
unfoldable pub same_entries : Entry → Entry → Bool
unfolding lookup
same_entries one two = nat_eq (length one) (length two) && agree one
  where
    agree : Entry → Bool
    agree [] = true
    agree ((key, text) ∷ rest) = says (lookup key two) text && agree rest

-- the loop that adds the praise of the phase
unfoldable pub add_praise : List Entry → List Entry → List Entry
unfolding same_entries
add_praise praise [] = praise
add_praise praise (entry ∷ entries) =
    add_praise (if any (same_entries entry) praise then praise else praise ++ entry ∷ []) entries

-- `suggestions_phase_result or phase_result`
abbrev pub source_of : PhaseResult → Option PhaseResult → PhaseResult
source_of phase none = phase
source_of phase (some other) = other

unfoldable pub praise_entries : PhaseResult → Option PhaseResult → List Entry
unfolding add_praise
praise_entries phase none = phase.llm_praise
praise_entries phase (some other) = add_praise other.llm_praise phase.llm_praise

module _ (generated : ℕ → String) (repo_path : Option Files) (changed_files : List String) where
  -- `entry.get("id", "") or ReviewItemFactory.generate_id()`, and the number of calls after it
  id_of : ℕ → Entry → String × ℕ
  unfolding get
  id_of calls entry =
      if truthy (get entry "id") then (get entry "id", calls) else (generated calls, suc calls)

  unfoldable pub suggestion_items : ℕ → List Entry → List ReviewItem × ℕ
  unfolding id_of get
  suggestion_items calls [] = ([], calls)
  suggestion_items calls (entry ∷ entries) =
      let (id, calls') = id_of calls entry in
      let (items, calls'') = suggestion_items calls' entries in
      let path = or_empty (normalize_file_path repo_path (get entry "file") changed_files) in
      (
        new_item info general (some path) (get entry "description") (get entry "line") id
              (get entry "current_code") (get entry "suggested_fix")
            ∷ items,
        calls'',
      )

  praise_item : ℕ → Entry → Option String → (ℕ → List ReviewItem × ℕ) → List ReviewItem × ℕ
  unfolding id_of get
  praise_item calls entry none rest = rest calls
  praise_item calls entry (some path) rest =
      let (id, calls') = id_of calls entry in
      let (items, calls'') = rest calls' in
      (new_item info general (some path) (get entry "description") "" id "" "" ∷ items, calls'')

  unfoldable pub praise_items : ℕ → List Entry → List ReviewItem × ℕ
  unfolding praise_item get
  praise_items calls [] = ([], calls)
  praise_items calls (entry ∷ entries) =
      praise_item calls entry (normalize_file_path repo_path (get entry "file") changed_files)
        (λ calls'. praise_items calls' entries)

-- `coerced if coerced is not None`, else the verdict for the merged items
unfoldable pub verdict_of : List ReviewItem → Option PhaseResult → ReviewVerdict
verdict_of merged none = verdict_for merged
verdict_of merged (some phase) = elim (coerce phase.llm_verdict) [
  | none ↦ verdict_for merged
  | some verdict ↦ verdict
]

-- The suggestions and the praise of the phases; without a phase result there are none.
unfoldable pub cited_items :
    (generated : ℕ → String) → AggregateReviewFindingsCommand → List ReviewItem × List ReviewItem
unfolding suggestion_items praise_items praise_entries
cited_items generated command = elim command.phase_result [
  | none ↦ ([], [])
  | some phase ↦
      (let other = command.suggestions_phase_result in
        let (suggestions, calls) =
          suggestion_items generated command.repo_path command.changed_files 0
            (source_of phase other).llm_suggestions in
        let (praise, calls') =
          praise_items generated command.repo_path command.changed_files calls
            (praise_entries phase other) in
        (suggestions, praise))
]

-- the fields that `_merge` gives to CodeReview
unfoldable pub merged_review :
    (make_reason : List ReviewItem → String) (generated : ℕ → String)
    → AggregateReviewFindingsCommand
    → CodeReview
merged_review make_reason generated command =
    let merged = deduplicate command.items in
    let (suggestions, praise) = cited_items generated command in
    record {
      verdict = verdict_of merged command.phase_result;
      reason = or_else (reason_of make_reason merged command.phase_result) (make_reason merged);
      summary = or_else (summary_of merged command.phase_result) (build_summary merged);
      items = merged;
      suggestions = suggestions;
      praise = praise;
      model_used = command.model_used;
    }

unfoldable pub execute :
    (make_reason : List ReviewItem → String) (generated : ℕ → String)
    → AggregateReviewFindingsCommand
    → Result CodeReview
unfolding merged_review
execute make_reason generated command = new_review (merged_review make_reason generated command)
