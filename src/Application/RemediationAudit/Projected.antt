-- ===== src/Application/RemediationAudit/Projected.antt =====
-- remediation_audit_service.py: the lifecycle that the audit of a record leaves
use pr_auto_reviewer.Prelude.{
  String, true, Option, none, some, not, ◌||◌, ◌≡◌, refl, ◌∙◌, ◌⊎◌, inl, inr, arith, Bool-cases,
  if◌then◌else◌, false,
}
use pr_auto_reviewer.Prelude.Result.{ok}
use pr_auto_reviewer.Prelude.Text.{truthy}
use pr_auto_reviewer.Domain.Status.{ReviewItemStatus, opened, is_terminal}
use pr_auto_reviewer.Domain.Lifecycle.{ReviewItemLifecycle, audit_target}
use pr_auto_reviewer.Domain.Lifecycle.Moves.{
  IsValid, moved, appeared, moved-IsValid, appeared-IsValid, audit-eq-moved, dismiss-eq-moved,
  dismiss_target, first_appearance-eq-appeared,
}
use pr_auto_reviewer.Application.RemediationAudit.Execute.{
  is_dismissed, is_resolved, move, appear, project_lifecycle,
}

abbrev pub ValidOption : Option ReviewItemLifecycle → Type 0
ValidOption none = Unit
ValidOption (some l) = IsValid l

-- the status that a lifecycle moves to, from its own and that of the record
target_of : ReviewItemStatus → ReviewItemStatus → ReviewItemStatus
target_of from status =
    if is_dismissed status then dismiss_target from else audit_target from true (is_resolved status)

unfoldable pub IsDecided : ReviewItemStatus → Type 0
IsDecided status = (is_terminal status ≡ true) ⊎ (status ≡ opened)

target_of-eq :
    (from status : ReviewItemStatus)
    → IsDecided status
    → (is_terminal from ≡ true → status ≡ from)
    → target_of from status ≡ status
unfolding target_of IsDecided audit_target
target_of-eq from status d h = ground arith

move-IsValid :
    (l : ReviewItemLifecycle) (status : ReviewItemStatus) (explanation sha : String)
    → IsValid l
    → truthy sha ≡ true
    → (l' : ReviewItemLifecycle) × (move l status explanation sha ≡ ok (some l'))
      × IsValid l'
      × (l'.status ≡ target_of l.status status)
unfolding moved target_of
move-IsValid l status explanation sha v hs =
    let d = dismiss_target l.status in
    let a = audit_target l.status true (is_resolved status) in
    elim (Bool-cases (is_dismissed status)) [
      | inl gone ↦ (
        moved d l sha explanation,
        ground (arith, gone, dismiss-eq-moved l v sha explanation hs),
        moved-IsValid l v sha explanation d hs,
        rw gone refl,
      )
      | inr stays ↦ (
        moved a l sha explanation,
        ground (arith, stays, audit-eq-moved l v sha explanation true (is_resolved status) hs),
        moved-IsValid l v sha explanation a hs,
        rw stays refl,
      )
    ]

appear-IsValid :
    (id sha : String) (lifecycle : Option ReviewItemLifecycle)
    → ValidOption lifecycle
    → truthy id ≡ true
    → truthy sha ≡ true
    → (l : ReviewItemLifecycle) × (appear id sha lifecycle ≡ ok l)
      × IsValid l
      × (is_terminal l.status ≡ true → lifecycle ≡ some l)
unfolding appeared
appear-IsValid id sha none v hi hs = (
  appeared id sha "",
  first_appearance-eq-appeared id sha "" hi hs,
  appeared-IsValid id sha "" hi hs,
  λ t. ground (arith, t),
)
appear-IsValid id sha (some l) v hi hs = (l, refl, v, λ t. refl)

-- The lifecycle after an audit, of a record that has the status `status` then.
pub record IsProjected (id sha : String) (lifecycle : Option ReviewItemLifecycle)
    (status : ReviewItemStatus) (lifecycle' : Option ReviewItemLifecycle) : Type 0 where
  pub skipped : not (truthy id) || not (truthy sha) ≡ true → lifecycle' ≡ lifecycle
  pub agrees :
      not (truthy id) || not (truthy sha) ≡ false
      → (l' : ReviewItemLifecycle) × (lifecycle' ≡ some l') × (l'.status ≡ status)

pub project_lifecycle-IsValid :
    (id : String) (lifecycle : Option ReviewItemLifecycle) (status : ReviewItemStatus)
    (explanation sha : String)
    → ValidOption lifecycle
    → IsDecided status
    → ((l : ReviewItemLifecycle)
        → lifecycle ≡ some l
        → is_terminal l.status ≡ true
        → status ≡ l.status)
    → (l : Option ReviewItemLifecycle) × (project_lifecycle id lifecycle status explanation sha
        ≡ ok l)
      × ValidOption l
      × IsProjected id sha lifecycle status l
unfolding project_lifecycle
project_lifecycle-IsValid id lifecycle status explanation sha v d h =
    elim (Bool-cases (not (truthy id) || not (truthy sha))) [
      | inl skipped ↦ (
        lifecycle,
        rw skipped refl,
        v,
        record { skipped = λ s. refl; agrees = λ n. ground (arith, skipped, n) },
      )
      | inr named ↦
          let (l, e, w, t) =
            appear-IsValid id sha lifecycle v (ground (arith, named)) (ground (arith, named)) in
          let (l', e', w', s) = move-IsValid l status explanation sha w (ground (arith, named)) in
          (
            some l',
            ground (arith, named, e, e'),
            w',
            record {
              skipped = λ n. ground (arith, named, n);
              agrees = λ n. (l', refl, s ∙ target_of-eq l.status status d (λ x. h l (t x) x));
            },
          )
    ]
