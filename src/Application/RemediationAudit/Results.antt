-- ===== src/Application/RemediationAudit/Results.antt =====
-- remediation_audit_service.py: what an audit of well-formed records returns
use pr_auto_reviewer.Prelude.{
  String, true, Option, none, some, ◌&&◌, ◌||◌, ◌==◌, ◌≡◌, refl, sym, ap, ◌∙◌, ◌⊎◌, inl, inr, arith,
  Bool-cases, eq_iff, subst, false,
}
use pr_auto_reviewer.Prelude.Result.{ok}
use pr_auto_reviewer.Prelude.Text.{lower}
use pr_auto_reviewer.Domain.Status.{ReviewItemStatus, resolved, is_terminal}
use pr_auto_reviewer.Domain.Item.{ReviewItem}
use pr_auto_reviewer.Domain.Lifecycle.{ReviewItemLifecycle}
use pr_auto_reviewer.Application.RemediationAudit.{
  AuditorResult, Ports, has_resolution_evidence, judge, status_from_result,
}
use pr_auto_reviewer.Application.RemediationAudit.Execute.{
  status_of, materialize_item, audited_status, audit_record,
}
use pr_auto_reviewer.Application.RemediationAudit.Projected.{
  ValidOption, IsDecided, IsProjected, project_lifecycle-IsValid,
}

-- Evidence that the record was remediated: the auditor says so, and gives a reason that cites a path and
-- an outcome.
abbrev pub IsProven : Ports → Option AuditorResult → Type 0
IsProven ports none = ⊥
IsProven ports (some r) =
    (lower r.status ≡ "resolved")
    × (reasoning : String) × (r.reasoning ≡ some reasoning)
    × (has_resolution_evidence ports reasoning ≡ true)

judge-IsProven :
    (ports : Ports) (status : String) (reason : Option String)
    → (judge ports status reason).0 ≡ resolved
    → (lower status ≡ "resolved")
      × (reasoning : String) × (reason ≡ some reasoning)
      × (has_resolution_evidence ports reasoning ≡ true)
judge-IsProven ports status none h = ground (arith, h)
judge-IsProven ports status (some reasoning) h =
    elim (Bool-cases (lower status == "resolved" && has_resolution_evidence ports reasoning)) [
      | inl b ↦
          (ground (arith, b, eq_iff (lower status) "resolved"), reasoning, refl, ground (arith, b))
      | inr f ↦ ground (arith, f, h)
    ]

status_from_result-IsProven :
    (ports : Ports) (result : Option AuditorResult)
    → (status_from_result ports result).0 ≡ resolved
    → IsProven ports result
unfolding status_from_result
status_from_result-IsProven ports none h = ground (arith, h)
status_from_result-IsProven ports (some r) h = judge-IsProven ports r.status r.reasoning h

status_from_result-resolves :
    (ports : Ports) (result : Option AuditorResult)
    → IsProven ports result
    → (status_from_result ports result).0 ≡ resolved
unfolding status_from_result
status_from_result-resolves ports none h = elim h [ ]
status_from_result-resolves ports (some r) (l, reasoning, e, p) =
    ap (λ reason. (judge ports r.status reason).0) e
    ∙ ground (arith, p, (eq_iff (lower r.status) "resolved").1 l)

-- The record that an audit returns.
pub record IsAudited (ports : Ports) (item : ReviewItem) (result : Option AuditorResult)
    (lifecycle : Option ReviewItemLifecycle) (item' : ReviewItem) : Type 0 where
  pub id : item'.id ≡ item.id
  pub severity : item'.severity ≡ item.severity
  pub terminal :
      is_terminal (status_of item lifecycle) ≡ true → item'.status ≡ status_of item lifecycle
  pub proven :
      item'.status ≡ resolved
      → (is_terminal (status_of item lifecycle) || is_terminal item.status ≡ true)
        ⊎ IsProven ports result
  pub resolves :
      is_terminal (status_of item lifecycle) || is_terminal item.status ≡ false
      → IsProven ports result
      → item'.status ≡ resolved

materialize_item-same :
    (ports : Ports) (item : ReviewItem) (status : ReviewItemStatus) (explanation : String)
    → ((materialize_item ports item status explanation).id ≡ item.id)
      × ((materialize_item ports item status explanation).severity ≡ item.severity)
      × ((materialize_item ports item status explanation).status ≡ status)
unfolding materialize_item
materialize_item-same ports item status explanation = ground arith

judge-IsDecided :
    (ports : Ports) (status : String) (reason : Option String)
    → IsDecided (judge ports status reason).0
unfolding IsDecided
judge-IsDecided ports status none = ground arith
judge-IsDecided ports status (some reasoning) = ground arith

audited_status-IsDecided :
    (ports : Ports) (item : ReviewItem) (result : Option AuditorResult)
    (lifecycle : Option ReviewItemLifecycle)
    → IsDecided (audited_status ports item result lifecycle).0
unfolding audited_status status_from_result IsDecided
audited_status-IsDecided ports item none lifecycle = ground arith
audited_status-IsDecided ports item (some r) lifecycle =
    ground (arith, judge-IsDecided ports r.status r.reasoning)

audited_status-IsProven :
    (ports : Ports) (item : ReviewItem) (result : Option AuditorResult)
    (lifecycle : Option ReviewItemLifecycle)
    → (is_terminal (status_of item lifecycle) ≡ true
        → (audited_status ports item result lifecycle).0 ≡ status_of item lifecycle)
      × ((audited_status ports item result lifecycle).0 ≡ resolved
          → (is_terminal (status_of item lifecycle) || is_terminal item.status ≡ true)
            ⊎ IsProven ports result)
      × (is_terminal (status_of item lifecycle) || is_terminal item.status ≡ false
          → IsProven ports result
          → (audited_status ports item result lifecycle).0 ≡ resolved)
unfolding audited_status
audited_status-IsProven ports item result lifecycle =
    let prior = status_of item lifecycle in
    (
      (λ t. ground (arith, t)),
      λ h. elim (Bool-cases (is_terminal prior || is_terminal item.status)) [
        | inl t ↦ inl t
        | inr open_ ↦ inr (status_from_result-IsProven ports result (ground (arith, open_, h)))
      ],
      (λ open_ h. rw open_ (status_from_result-resolves ports result h)),
    )

pub audit_record_lem :
    (ports : Ports) (item : ReviewItem) (result : Option AuditorResult)
    (lifecycle : Option ReviewItemLifecycle) (sha : String)
    → ValidOption lifecycle
    → (item' : ReviewItem) × (lifecycle' : Option ReviewItemLifecycle) × (audit_record ports item
          result lifecycle sha
        ≡ ok (item', lifecycle'))
      × ValidOption lifecycle'
      × IsAudited ports item result lifecycle item'
      × IsProjected item.id sha lifecycle item'.status lifecycle'
unfolding audit_record
audit_record_lem ports item result lifecycle sha v =
    let (status, explanation) = audited_status ports item result lifecycle in
    let (i, sev, st) = materialize_item-same ports item status explanation in
    let (t, p, r) = audited_status-IsProven ports item result lifecycle in
    let (l, e, w, m) =
      project_lifecycle-IsValid item.id lifecycle status explanation sha v
        (audited_status-IsDecided ports item result lifecycle) (λ l q x. ground (arith, q, x, t)) in
    (
      materialize_item ports item status explanation,
      l,
      rw e refl,
      w,
      record {
        id = i;
        severity = sev;
        terminal = λ h. st ∙ t h;
        proven = λ h. p (sym st ∙ h);
        resolves = λ o h. st ∙ r o h;
      },
      subst (λ s. IsProjected item.id sha lifecycle s l) (sym st) m,
    )
