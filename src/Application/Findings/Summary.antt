-- ===== src/Application/Findings/Summary.antt =====
-- application/services/finding_aggregator_service.py: the summary and the reason of an aggregated review.
-- `make_reason` is the reason factory.
use pr_auto_reviewer.Prelude.{
  ℕ, suc, String, Bool, true, false, List, [], ◌∷◌, Option, none, some, not, ◌&&◌, ◌||◌, nat_eq,
  if◌then◌else◌, zero,
}
use pr_auto_reviewer.Prelude.Lists.{any, keep, length}
use pr_auto_reviewer.Prelude.Sets.{union}
use pr_auto_reviewer.Prelude.Text.{truthy, strip, lower}
use pr_auto_reviewer.Prelude.Words.{append, join, show, sorted}
use pr_auto_reviewer.Domain.Severity.{info}
use pr_auto_reviewer.Domain.Severity
use pr_auto_reviewer.Domain.Item.{ReviewItem, is_blocking}
use pr_auto_reviewer.Domain.PhaseResult.{PhaseResult}

-- `value or ""`
abbrev pub or_empty : Option String → String
or_empty none = ""
or_empty (some text) = text

-- `[item.file_path for item in merged if item.file_path]`
file_paths : List ReviewItem → List String
file_paths [] = []
file_paths (item ∷ items) =
    let rest = file_paths items in
    let path = or_empty item.file_path in if truthy path then path ∷ rest else rest

-- `files[:n]`
take_texts : ℕ → List String → List String
take_texts zero texts = []
take_texts (suc n) [] = []
take_texts (suc n) (text ∷ texts) = text ∷ take_texts n texts

-- the text of an f-string, from its pieces
abbrev concat : List String → String
concat pieces = join "" pieces

unfoldable pub build_summary : List ReviewItem → String
unfolding file_paths take_texts append join show sorted union
build_summary merged =
    let files = sorted (union [] (file_paths merged)) in
    let base = append "Found " (
      concat (
        show (length merged)
        ∷ " issue(s) ("
        ∷ show (length (keep is_blocking merged))
        ∷ " blocking across "
        ∷ show (length files)
        ∷ " file(s))."
        ∷ [])) in
    if nat_eq (length files) 0
    then base
    else append base (append " Files: " (join ", " (take_texts 5 files)))

-- `if merged: found elif not merged: fallback`
abbrev pub or_fallback : List ReviewItem → String → String → String
or_fallback [] found fallback = fallback
or_fallback (item ∷ items) found fallback = found

unfoldable pub summary_of : List ReviewItem → Option PhaseResult → String
unfolding build_summary
summary_of merged none = or_fallback merged (build_summary merged) ""
summary_of merged (some phase) =
    if truthy phase.llm_summary
      && nat_eq (length merged) (length phase.items)
      && same (any is_blocking merged) (any is_blocking phase.items)
    then phase.llm_summary
    else or_fallback merged (build_summary merged) phase.llm_summary
  where
    same : Bool → Bool → Bool
    same true b = b
    same false b = not b

abbrev pub is_empty : List ReviewItem → Bool
is_empty [] = true
is_empty (item ∷ items) = false

module _ (make_reason : List ReviewItem → String) where
  -- `blocking[0] if blocking else merged[0]`, for `merged` with head and tail
  target : ReviewItem → List ReviewItem → List ReviewItem → ReviewItem
  target item items [] = item
  target item items (blocker ∷ blocking) = blocker

  described : List ReviewItem → ReviewItem → String
  unfolding append strip lower join
  described merged item =
      let desc = strip item.description in
      let file_path = strip (or_empty item.file_path) in
      let file_str = if truthy file_path then append " in " file_path else "" in
      if truthy desc
      then append "Identified "
          (concat (lower (Severity.value item.severity) ∷ " issue" ∷ file_str ∷ ": " ∷ desc ∷ []))
      else make_reason merged

  unfoldable pub reason_for_merged : List ReviewItem → String
  unfolding target described
  reason_for_merged [] = "No issues found."
  reason_for_merged (item ∷ items) =
      described (item ∷ items) (target item items (keep is_blocking (item ∷ items)))

  unfoldable pub reason_of : List ReviewItem → Option PhaseResult → String
  unfolding reason_for_merged
  reason_of merged none = or_fallback merged (reason_for_merged merged) (make_reason merged)
  reason_of merged (some phase) =
      if truthy phase.llm_reason
        && (not (any is_blocking merged) || any is_blocking phase.items)
        && (nat_eq (length merged) (length phase.items) || is_empty merged)
      then phase.llm_reason
      else or_fallback merged (reason_for_merged merged)
          (if truthy phase.llm_reason then phase.llm_reason else make_reason merged)
