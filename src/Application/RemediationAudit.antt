-- ===== src/Application/RemediationAudit.antt =====
-- application/services/remediation_audit_service.py: prior findings against the updated code.
--
-- A result of the auditor is a JSON object; a text field is `none` where the value is no string. The
-- search for a cited path is Python's `re`, the texts of the files are the file system's; both are
-- parameters.
pub mod Execute
pub mod Projected
pub mod Results
pub mod Whole
use pr_auto_reviewer.Prelude.{
  ℕ, zero, suc, ◌+◌, String, Bool, true, false, List, [], ◌∷◌, ◌++◌, Option, none, some, not, ◌&&◌,
  ◌||◌, ◌==◌, leb, nat_eq, if◌then◌else◌,
}
use Prim.Native.Char.{code}
use pr_auto_reviewer.Prelude.Lists.{any, keep, first, length}
use pr_auto_reviewer.Prelude.Sets.{contains, add}
use pr_auto_reviewer.Prelude.Dict.{lookup}
use pr_auto_reviewer.Prelude.Result.{Result, ok, raise, ◌>>=◌}
use pr_auto_reviewer.Prelude.Text.{truthy, or_else, strip, lower, occurs}
use pr_auto_reviewer.Domain.Status.{ReviewItemStatus, opened, resolved, dismissed, is_terminal}
use pr_auto_reviewer.Domain.Item.{ReviewItem}
use pr_auto_reviewer.Domain.Lifecycle.{ReviewItemLifecycle, first_appearance}
use pr_auto_reviewer.Domain.Lifecycle
use pr_auto_reviewer.Domain.PullRequest.Lifecycles.{index_by_id}
use pr_auto_reviewer.Application.ReviewPullRequest.{ReviewAuditResult}

pub record AuditorResult : Type 0 where
  pub finding_id : Option String
  pub item_id : Option String
  pub suggestion_id : Option String
  -- `str(result.get("status", ""))`
  pub status : String
  pub reasoning : Option String
  -- `result.get("record_type", result.get("section", ""))`
  pub record_type : Option String
  pub finding_index : Option ℕ

pub record Ports : Type 0 where
  -- `re.search` for a path with a suffix
  pub cites_path : String → Bool
  -- `none` where the file cannot be read
  pub read_text : String → Option String

abbrev pub fallback : String
fallback = "Remediation was not proven; the record remains open."

abbrev pub text_or : Option String → String → String
text_or none rest = rest
text_or (some text) rest = or_else text rest

-- the first of the three IDs that is a text and not empty
unfoldable pub result_id : AuditorResult → String
result_id r = text_or r.finding_id (text_or r.item_id (text_or r.suggestion_id ""))

abbrev pub type_of : Option String → String
type_of none = "__invalid__"
type_of (some value) =
    let normalized = strip (lower value) in
    if not (truthy normalized)
    then ""
    else if contains normalized ("finding" ∷ "findings" ∷ "item" ∷ "items" ∷ [])
    then "item"
    else if contains normalized ("suggestion" ∷ "suggestions" ∷ [])
    then "suggestion"
    else "__invalid__"

unfoldable pub result_type : AuditorResult → String
unfolding contains
result_type r = type_of r.record_type

unfoldable pub matches : String → String → AuditorResult → Bool
unfolding result_id result_type
matches id record_type r =
    (result_id r == id && truthy (result_id r))
    && not (truthy (result_type r) && not (result_type r == record_type))

abbrev pub has_index : ℕ → Option ℕ → Bool
has_index n none = false
has_index n (some i) = nat_eq i n

unfoldable pub matching_result :
    String → ℕ → ℕ → List AuditorResult → Bool → String → Option AuditorResult
unfolding matches
matching_result id index item_count results has_result_ids record_type =
    elim (first (matches id record_type) results) [
      | some r ↦ some r
      | none ↦
          if has_result_ids
          then none
          else first
              (λ r.
                has_index (if record_type == "item" then index else item_count + index)
                  r.finding_index)
              results
    ]

module _ (ports : Ports) where
  unfoldable pub has_resolution_evidence : String → Bool
  has_resolution_evidence reasoning =
      let normalized = lower reasoning in
      ports.cites_path reasoning
      && any (λ marker. occurs marker normalized)
          ("acceptance criteria" ∷ "reproduction" ∷ "no longer triggers" ∷ "tests pass"
            ∷ "tests passed" ∷ "verified" ∷ [])

  abbrev pub judge : String → Option String → ReviewItemStatus × String
  judge status none = (opened, fallback)
  judge status (some reasoning) =
      if lower status == "resolved" && has_resolution_evidence reasoning
      then (resolved, strip reasoning)
      else if truthy (strip reasoning)
      then (opened, strip reasoning)
      else (opened, fallback)

  unfoldable pub status_from_result : Option AuditorResult → ReviewItemStatus × String
  status_from_result none = (opened, fallback)
  status_from_result (some r) = judge r.status r.reasoning
