-- ===== src/Application/RemediationAudit/Execute.antt =====
-- remediation_audit_service.py: the audit of one record, and of all of them
use pr_auto_reviewer.Prelude.{
  ℕ, suc, String, Bool, true, false, List, [], ◌∷◌, ◌++◌, Option, none, some, not, ◌&&◌, ◌||◌, leb,
  map, nat_eq, if◌then◌else◌,
}
use Prim.Native.Char.{code}
use pr_auto_reviewer.Prelude.Lists.{any, keep, length}
use pr_auto_reviewer.Prelude.Sets.{contains}
use pr_auto_reviewer.Prelude.Dict.{lookup}
use pr_auto_reviewer.Prelude.Result.{Result, ok, ◌>>=◌}
use pr_auto_reviewer.Prelude.Text.{truthy, strip}
use pr_auto_reviewer.Prelude.Words.{append}
use pr_auto_reviewer.Domain.Status.{ReviewItemStatus, resolved, dismissed, is_terminal}
use pr_auto_reviewer.Domain.Item.{ReviewItem}
use pr_auto_reviewer.Domain.Lifecycle.{ReviewItemLifecycle, first_appearance, audit, dismiss}
use pr_auto_reviewer.Domain.PullRequest.{item_ids}
use pr_auto_reviewer.Domain.PullRequest.Lifecycles.{index_by_id}
use pr_auto_reviewer.Application.ReviewPullRequest.{ReviewAuditResult}
use pr_auto_reviewer.Application.RemediationAudit.{
  AuditorResult, Ports, result_id, matching_result, status_from_result,
}

unfoldable pub is_line_break : ℕ → Bool
is_line_break n =
    leb 10 n && leb n 13 || leb 28 n && leb n 30 || nat_eq n 133 || leb 8232 n && leb n 8233

abbrev pub extend : String → List String → List String
extend c [] = c ∷ []
extend c (line ∷ lines) = append c line ∷ lines

-- `s.splitlines()`, but for empty lines
unfoldable pub split_lines : String → List String
unfolding is_line_break
split_lines String.[] = "" ∷ []
split_lines (String.◌∷◌ c s) =
    let rest = split_lines s in
    if is_line_break (code c) then "" ∷ rest else extend (String.◌∷◌ c "") rest

-- `{line.strip() for line in s.splitlines() if line.strip()}`
abbrev pub stripped_lines : String → List String
stripped_lines s = keep truthy (map strip (split_lines s))

abbrev pub is_present : List String → List String → Bool
is_present [] current = false
is_present (e ∷ es) current = not (any (λ line. not (contains line current)) (e ∷ es))

abbrev pub found_in : String → Option String → Bool
found_in evidence none = false
found_in evidence (some text) = is_present (stripped_lines evidence) (stripped_lines text)

abbrev pub path_of : ReviewItem → String
path_of item = elim item.file_path [ none ↦ "" | some path ↦ path ]

abbrev pub is_resolved : ReviewItemStatus → Bool
is_resolved resolved = true
is_resolved _ = false

abbrev pub is_dismissed : ReviewItemStatus → Bool
is_dismissed dismissed = true
is_dismissed _ = false

abbrev pub status_of : ReviewItem → Option ReviewItemLifecycle → ReviewItemStatus
status_of item none = item.status
status_of item (some l) = l.status

abbrev pub explanation_of : ReviewItem → Option ReviewItemLifecycle → String
explanation_of item none = item.status_explanation
explanation_of item (some l) = l.status_explanation

abbrev pub move :
    ReviewItemLifecycle → ReviewItemStatus → String → String → Result (Option ReviewItemLifecycle)
move l status explanation audit_sha = do
  moved ←
      if is_dismissed status
      then dismiss l audit_sha explanation
      else audit l audit_sha true (is_resolved status) explanation
  ok (some moved)

abbrev pub appear : String → String → Option ReviewItemLifecycle → Result ReviewItemLifecycle
appear item_id audit_sha none = first_appearance item_id audit_sha ""
appear item_id audit_sha (some l) = ok l

unfoldable pub project_lifecycle :
    String
    → Option ReviewItemLifecycle
    → ReviewItemStatus
    → String
    → String
    → Result (Option ReviewItemLifecycle)
project_lifecycle item_id lifecycle status explanation audit_sha =
    if not (truthy item_id) || not (truthy audit_sha)
    then ok lifecycle
    else (do l ← appear item_id audit_sha lifecycle; move l status explanation audit_sha)

abbrev pub match_in : String → ℕ → List AuditorResult → ReviewItem → ℕ → Option AuditorResult
match_in record_type item_count results item index =
    let has_result_ids = any (λ r. truthy (result_id r)) results in
    matching_result item.id index item_count results has_result_ids record_type

abbrev pub joined : Option ReviewItemLifecycle → List ReviewItemLifecycle → List ReviewItemLifecycle
joined none ls = ls
joined (some l) ls = l ∷ ls

module _ (ports : Ports) where
  unfoldable pub current_code_exists : ReviewItem → Bool
  unfolding split_lines contains
  current_code_exists item =
      if not (truthy (path_of item)) || not (truthy item.current_code)
      then true
      else found_in item.current_code (ports.read_text (path_of item))

  unfoldable pub materialize_item : ReviewItem → ReviewItemStatus → String → ReviewItem
  materialize_item item status explanation =
      let current = record item { status = status; status_explanation = explanation } in
      if not (current_code_exists item)
      then record current { current_code = ""; suggested_fix = "" }
      else current

  -- The status and the explanation that `_audit_record` chooses.
  unfoldable pub audited_status :
      ReviewItem → Option AuditorResult → Option ReviewItemLifecycle → ReviewItemStatus × String
  audited_status item result lifecycle =
      let prior = status_of item lifecycle in
      if is_terminal prior || is_terminal item.status
      then (if is_terminal prior then prior else item.status, explanation_of item lifecycle)
      else status_from_result ports result

  unfoldable pub audit_record :
      ReviewItem
      → Option AuditorResult
      → Option ReviewItemLifecycle
      → String
      → Result (ReviewItem × Option ReviewItemLifecycle)
  audit_record item result lifecycle audit_sha = do
    let (status, explanation) = audited_status item result lifecycle
    projected ← project_lifecycle item.id lifecycle status explanation audit_sha
    ok (materialize_item item status explanation, projected)

  -- One of the two loops of `execute`: the records, and the lifecycles that they got.
  unfoldable pub audit_records :
      (ReviewItem → ℕ → Option AuditorResult)
      → List (String × ReviewItemLifecycle)
      → String
      → ℕ
      → List ReviewItem
      → Result (List ReviewItem × List ReviewItemLifecycle)
  audit_records matching by_id audit_sha index [] = ok ([], [])
  audit_records matching by_id audit_sha index (item ∷ items) = do
    (audited, lifecycle) ← audit_record item (matching item index) (lookup item.id by_id) audit_sha
    (rest, lifecycles) ← audit_records matching by_id audit_sha (suc index) items
    ok (audited ∷ rest, joined lifecycle lifecycles)

  -- What `execute` does where there is a record to audit.
  unfoldable pub audit_all :
      List ReviewItem
      → List ReviewItem
      → List ReviewItemLifecycle
      → List AuditorResult
      → String
      → Result ReviewAuditResult
  unfolding contains
  audit_all items suggestions prior results audit_sha = do
    let by_id = index_by_id [] (keep (λ l. truthy l.item_id) prior)
    (audited_items, item_lifecycles) ←
        audit_records (match_in "item" (length items) results) by_id audit_sha 0 items
    (audited_suggestions, suggestion_lifecycles) ←
        audit_records (match_in "suggestion" (length items) results) by_id audit_sha 0 suggestions
    let lifecycles = item_lifecycles ++ suggestion_lifecycles
    ok (record {
      items = audited_items;
      suggestions = audited_suggestions;
      lifecycles = lifecycles ++ keep (λ l. not (contains l.item_id (item_ids lifecycles))) prior;
    })

  unfoldable pub execute :
      List ReviewItem
      → List ReviewItem
      → List ReviewItemLifecycle
      → List AuditorResult
      → String
      → Result ReviewAuditResult
  execute [] [] prior results audit_sha =
      ok (record { items = []; suggestions = []; lifecycles = prior })
  execute items suggestions prior results audit_sha =
      audit_all items suggestions prior results audit_sha
