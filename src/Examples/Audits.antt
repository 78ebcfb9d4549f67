-- ===== src/Examples/Audits.antt =====
-- An audit of one open record with a report that proves it resolved.
use pr_auto_reviewer.Prelude.{[], ◌∷◌, none, some, true, ◌≡◌}
use pr_auto_reviewer.Prelude.Result.{ok}
use pr_auto_reviewer.Application.ReviewPullRequest.{ReviewAuditResult}
use pr_auto_reviewer.Application.RemediationAudit.{AuditorResult, Ports}
use pr_auto_reviewer.Application.RemediationAudit.Execute.{execute}
use pr_auto_reviewer.Application.RemediationAudit.Whole.{IsWhole, execute_lem}
use pr_auto_reviewer.Examples.Samples.{blocker, nit, lifecycle_c}
use pr_auto_reviewer.Examples.PullRequests.{lifecycle_c-IsValid}

abbrev report : AuditorResult
report = record {
  finding_id = some "c3d4";
  item_id = none;
  suggestion_id = none;
  status = "Resolved";
  reasoning = some "src/b.py:3 was verified";
  record_type = some "items";
  finding_index = none;
}

abbrev ports : Ports
ports = record { cites_path = λ text. true; read_text = λ path. some "x = y.z" }

execute_lem_example :
    (result : ReviewAuditResult) × (execute ports
        (nit ∷ [])
        (blocker ∷ [])
        (lifecycle_c ∷ [])
        (report ∷ [])
        "222"
      ≡ ok result)
    × IsWhole ports (nit ∷ []) (blocker ∷ []) (lifecycle_c ∷ []) (report ∷ []) result
execute_lem_example =
    execute_lem ports (nit ∷ []) (blocker ∷ []) (lifecycle_c ∷ []) (report ∷ []) "222"
      (lifecycle_c-IsValid, tt)
