-- ===== src/Application/Findings/Aggregator/Review.antt =====
-- The review that the findings of all phases make.
use pr_auto_reviewer.Prelude.{
  ℕ, suc, String, true, false, ◌≡◌, refl, ◌⊎◌, inl, inr, List, [], ◌∷◌, Option, some, arith, map,
  Option-cases,
}
use pr_auto_reviewer.Prelude.Lists.{any, All, All-mono, Any}
use pr_auto_reviewer.Prelude.Result.{ok, raise, review_verdict}
use pr_auto_reviewer.Prelude.Text.{truthy, or_else}
use pr_auto_reviewer.Prelude.Words.{append}
use pr_auto_reviewer.Domain.Severity
use pr_auto_reviewer.Domain.Item.{ReviewItem, is_blocking}
use pr_auto_reviewer.Domain.Verdict.{commented}
use pr_auto_reviewer.Domain.Review.{CodeReview, new_review}
use pr_auto_reviewer.Domain.CitedPath.{Files, normalize_file_path}
use pr_auto_reviewer.Domain.PhaseResult.{PhaseResult, Entry}
use pr_auto_reviewer.Application.Findings.Deduplicator.{deduplicate}
use pr_auto_reviewer.Application.Findings.Deduplicator.Kept.{StandsFor, deduplicate_lem}
use pr_auto_reviewer.Application.Findings.Summary.{build_summary, summary_of, reason_of}
use pr_auto_reviewer.Application.Findings.Aggregator.{
  AggregateReviewFindingsCommand, get, verdict_of, cited_items, execute, source_of,
  suggestion_items, praise_item, praise_items, praise_entries, merged_review,
}

-- A suggestion or a praise: it has an ID and never blocks.
unfoldable pub IsHarmless : ReviewItem → Type 0
IsHarmless item = (truthy item.id ≡ true) × (is_blocking item ≡ false)

module _ (generated : ℕ → String) (generates : (n : ℕ) → truthy (generated n) ≡ true)
    (repo_path : Option Files) (changed_files : List String) where
  suggestion_items-IsHarmless :
      (calls : ℕ) (entries : List Entry)
      → All IsHarmless (suggestion_items generated repo_path changed_files calls entries).0
  unfolding suggestion_items IsHarmless
  suggestion_items-IsHarmless calls [] = tt
  suggestion_items-IsHarmless calls (e ∷ es) = ground (
    arith,
    generates calls,
    suggestion_items-IsHarmless calls es,
    suggestion_items-IsHarmless (suc calls) es,
  )

  suggestion_items-descriptions :
      (calls : ℕ) (entries : List Entry)
      → map
          (λ item. item.description)
          (suggestion_items generated repo_path changed_files calls entries).0
        ≡ map (λ entry. get entry "description") entries
  unfolding suggestion_items get
  suggestion_items-descriptions calls [] = refl
  suggestion_items-descriptions calls (e ∷ es) =
      ground (
        arith,
        suggestion_items-descriptions calls es,
        suggestion_items-descriptions (suc calls) es,
      )

  praise_items-IsHarmless :
      (calls : ℕ) (entries : List Entry)
      → All IsHarmless (praise_items generated repo_path changed_files calls entries).0
  unfolding praise_items IsHarmless praise_item
  praise_items-IsHarmless calls [] = tt
  praise_items-IsHarmless calls (e ∷ es) =
      elim (Option-cases (normalize_file_path repo_path (get e "file") changed_files)) [
        | inl n ↦ rw n (praise_items-IsHarmless calls es)
        | inr (path, s) ↦ rw s (
            ground (
              arith,
              generates calls,
              praise_items-IsHarmless calls es,
              praise_items-IsHarmless (suc calls) es,
            ))
      ]

-- With a phase result, every suggestion of the phase that is the source becomes an item with its
-- description, in order. Suggestions and praise have IDs, where generated IDs are not empty, and none of
-- them blocks.
pub cited_items_lem :
    (generated : ℕ → String)
    → ((n : ℕ) → truthy (generated n) ≡ true)
    → (command : AggregateReviewFindingsCommand) (phase : PhaseResult)
    → command.phase_result ≡ some phase
    → let (suggestions, praise) = cited_items generated command in
      (map (λ item. item.description) suggestions
        ≡ map
            (λ entry. get entry "description")
            (source_of phase command.suggestions_phase_result).llm_suggestions)
      × All IsHarmless suggestions
      × All IsHarmless praise
unfolding cited_items
cited_items_lem generated generates command phase e =
    let repo_path = command.repo_path in
    let changed_files = command.changed_files in
    let other = command.suggestions_phase_result in
    let entries = (source_of phase other).llm_suggestions in
    rw e (
      suggestion_items-descriptions generated generates repo_path changed_files 0 entries,
      suggestion_items-IsHarmless generated generates repo_path changed_files 0 entries,
      praise_items-IsHarmless generated generates repo_path changed_files
          (suggestion_items generated repo_path changed_files 0 entries).1
          (praise_entries phase other),
    )

truthy-or_else : (a b : String) → truthy b ≡ true → truthy (or_else a b) ≡ true
truthy-or_else String.[] b h = h
truthy-or_else (String.◌∷◌ c a) b h = refl

truthy-build_summary : (merged : List ReviewItem) → truthy (build_summary merged) ≡ true
unfolding build_summary append
truthy-build_summary merged = ground arith

-- A finding of a blocking severity is still there as one.
unfoldable pub StillBlocks : List ReviewItem → ReviewItem → Type 0
StillBlocks out item = (Severity.is_blocking item.severity ≡ false) ⊎ (any is_blocking out ≡ true)

StandsFor-StillBlocks :
    (item : ReviewItem) (out : List ReviewItem) → Any (StandsFor item) out → StillBlocks out item
unfolding StandsFor StillBlocks
StandsFor-StillBlocks item [] h = elim h [ ]
StandsFor-StillBlocks item (o ∷ os) h = ground (arith, StandsFor-StillBlocks item os)

new_review-cases :
    (r : CodeReview)
    → truthy r.reason ≡ true
    → truthy r.summary ≡ true
    → ((new_review r ≡ raise review_verdict)
        × ((r.verdict ≡ commented) ⊎ (truthy r.model_used ≡ false)))
      ⊎ (new_review r ≡ ok r)
unfolding new_review
new_review-cases r h₁ h₂ = ground arith

-- The aggregation raises only a ReviewVerdictError: when the model's verdict is COMMENTED, or no model
-- is named. Else it returns a review of the deduplicated findings. Its verdict is the model's, if the
-- model gave one, else the guardrails'; its reason and its summary are not empty; and where a finding
-- that went in has a blocking severity, one of the findings that come out blocks. The reason factory
-- must not return an empty text.
pub execute-StillBlocks :
    (make_reason : List ReviewItem → String) (generated : ℕ → String)
    (command : AggregateReviewFindingsCommand)
    → truthy (make_reason (deduplicate command.items)) ≡ true
    → ((execute make_reason generated command ≡ raise review_verdict)
        × ((verdict_of (deduplicate command.items) command.phase_result ≡ commented)
            ⊎ (truthy command.model_used ≡ false)))
      ⊎ ((review : CodeReview) × (execute make_reason generated command ≡ ok review)
          × (review.items ≡ deduplicate command.items)
          × (review.verdict ≡ verdict_of (deduplicate command.items) command.phase_result)
          × (truthy review.reason ≡ true)
          × (truthy review.summary ≡ true)
          × All (StillBlocks review.items) command.items)
unfolding execute
execute-StillBlocks make_reason generated command r =
    let merged = deduplicate command.items in
    let blocks =
      All-mono (λ item. Any (StandsFor item) merged) (StillBlocks merged)
        (λ item h. StandsFor-StillBlocks item merged h) command.items
        (deduplicate_lem command.items).1 in
    let reason =
      truthy-or_else (reason_of make_reason merged command.phase_result) (make_reason merged) r in
    let summary =
      truthy-or_else (summary_of merged command.phase_result) (build_summary merged)
        (truthy-build_summary merged) in
    let review = merged_review make_reason generated command in
    elim (new_review-cases review reason summary) [
      | inl raised ↦ inl raised
      | inr returned ↦ inr (review, returned, refl, refl, reason, summary, blocks)
    ]
