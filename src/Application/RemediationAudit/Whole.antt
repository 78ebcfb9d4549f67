-- ===== src/Application/RemediationAudit/Whole.antt =====
-- remediation_audit_service.py, `execute`: all records of a history
use pr_auto_reviewer.Prelude.{
  ℕ, suc, String, Bool, true, false, List, [], ◌∷◌, ◌++◌, Option, none, some, not, if◌then◌else◌,
  ◌≡◌, refl, sym, subst, ◌==◌,
}
use pr_auto_reviewer.Prelude.Lists.{All, keep, length}
use pr_auto_reviewer.Prelude.Sets.{contains}
use pr_auto_reviewer.Prelude.Dict.{lookup, insert, lookup-insert}
use pr_auto_reviewer.Prelude.Result.{ok}
use pr_auto_reviewer.Prelude.Text.{truthy}
use pr_auto_reviewer.Domain.Item.{ReviewItem}
use pr_auto_reviewer.Domain.Lifecycle.{ReviewItemLifecycle}
use pr_auto_reviewer.Domain.Lifecycle.Moves.{IsValid}
use pr_auto_reviewer.Domain.PullRequest.{item_ids}
use pr_auto_reviewer.Domain.PullRequest.Lifecycles.{index_by_id}
use pr_auto_reviewer.Application.ReviewPullRequest.{ReviewAuditResult}
use pr_auto_reviewer.Application.RemediationAudit.{AuditorResult, Ports}
use pr_auto_reviewer.Application.RemediationAudit.Execute.{
  audit_records, execute, audit_all, joined, match_in,
}
use pr_auto_reviewer.Application.RemediationAudit.Results.{IsAudited, audit_record_lem}
use pr_auto_reviewer.Application.RemediationAudit.Projected.{ValidOption}

AllValid : List (String × ReviewItemLifecycle) → Type 0
AllValid d = (k : String) → ValidOption (lookup k d)

insert-AllValid :
    (key : String) (l : ReviewItemLifecycle) (d : List (String × ReviewItemLifecycle))
    → IsValid l
    → AllValid d
    → AllValid (insert key l d)
unfolding AllValid
insert-AllValid key l d v h k =
    subst ValidOption (sym (lookup-insert k key l d))
      (elim (key == k) as (λ b. ValidOption (if b then some l else lookup k d)) [
        | true ↦ v
        | false ↦ h k
      ])

index-AllValid :
    (d : List (String × ReviewItemLifecycle)) (ls : List ReviewItemLifecycle)
    → AllValid d
    → All IsValid ls
    → AllValid (index_by_id d ls)
unfolding index_by_id
index-AllValid d [] h v = h
index-AllValid d (l ∷ ls) h v =
    index-AllValid (insert l.item_id l d) ls (insert-AllValid l.item_id l d v.0 h) v.1

keep-All :
    (test : ReviewItemLifecycle → Bool) (ls : List ReviewItemLifecycle)
    → All IsValid ls
    → All IsValid (keep test ls)
keep-All test [] v = tt
keep-All test (l ∷ ls) v =
    elim (test l) as (λ b. All IsValid (if b then l ∷ keep test ls else keep test ls)) [
      | true ↦ (v.0, keep-All test ls v.1)
      | false ↦ keep-All test ls v.1
    ]

append-All :
    (xs ys : List ReviewItemLifecycle) → All IsValid xs → All IsValid ys → All IsValid (xs ++ ys)
append-All [] ys v w = w
append-All (x ∷ xs) ys v w = (v.0, append-All xs ys v.1 w)

-- Each record against the one that came of it, in order.
abbrev pub AuditedAll :
    Ports
    → (ReviewItem → ℕ → Option AuditorResult)
    → List (String × ReviewItemLifecycle)
    → ℕ
    → List ReviewItem
    → List ReviewItem
    → Type 0
AuditedAll ports matching by_id index [] [] = Unit
AuditedAll ports matching by_id index (i ∷ is) (i' ∷ is') =
    IsAudited ports i (matching i index) (lookup i.id by_id) i'
    × AuditedAll ports matching by_id (suc index) is is'
AuditedAll ports matching by_id index _ _ = ⊥

joined-All :
    (o : Option ReviewItemLifecycle) (ls : List ReviewItemLifecycle)
    → ValidOption o
    → All IsValid ls
    → All IsValid (joined o ls)
joined-All none ls v w = w
joined-All (some l) ls v w = (v, w)

audit_records-IsValid :
    (ports : Ports) (matching : ReviewItem → ℕ → Option AuditorResult)
    (by_id : List (String × ReviewItemLifecycle)) (sha : String) (index : ℕ)
    (items : List ReviewItem)
    → AllValid by_id
    → (items' : List ReviewItem) × (ls : List ReviewItemLifecycle) × (audit_records ports matching
          by_id sha index items
        ≡ ok (items', ls))
      × AuditedAll ports matching by_id index items items'
      × All IsValid ls
unfolding audit_records AllValid
audit_records-IsValid ports matching by_id sha index [] h = ([], [], refl, tt, tt)
audit_records-IsValid ports matching by_id sha index (i ∷ is) h =
    let (i', l, e, v, a, p) =
      audit_record_lem ports i (matching i index) (lookup i.id by_id) sha (h i.id) in
    let (is', ls, e', as', vs) = audit_records-IsValid ports matching by_id sha (suc index) is h in
    (i' ∷ is', joined l ls, rw (e, e') refl, (a, as'), joined-All l ls v vs)

-- What an audit of the whole history returns.
pub record IsWhole (ports : Ports) (items suggestions : List ReviewItem)
    (prior : List ReviewItemLifecycle) (results : List AuditorResult) (result : ReviewAuditResult)
    : Type 0 where
  pub audited_items :
      AuditedAll ports
        (match_in "item" (length items) results)
        (index_by_id [] (keep (λ l. truthy l.item_id) prior))
        0
        items
        result.items
  pub audited_suggestions :
      AuditedAll ports
        (match_in "suggestion" (length items) results)
        (index_by_id [] (keep (λ l. truthy l.item_id) prior))
        0
        suggestions
        result.suggestions
  pub lifecycles : All IsValid result.lifecycles

no_entry : AllValid []
unfolding AllValid lookup
no_entry k = tt

audit_all-IsWhole :
    (ports : Ports) (items suggestions : List ReviewItem) (prior : List ReviewItemLifecycle)
    (results : List AuditorResult) (sha : String)
    → All IsValid prior
    → (result : ReviewAuditResult) × (audit_all ports items suggestions prior results sha
        ≡ ok result)
      × IsWhole ports items suggestions prior results result
unfolding audit_all
audit_all-IsWhole ports items suggestions prior results sha v =
    let named = keep (λ l. truthy l.item_id) prior in
    let by_id = index_by_id [] named in
    let h = index-AllValid [] named no_entry (keep-All (λ l. truthy l.item_id) prior v) in
    let (is, ls, e, a, w) =
      audit_records-IsValid ports (match_in "item" (length items) results) by_id sha 0 items h in
    let (ss, ms, f, b, x) =
      audit_records-IsValid ports (match_in "suggestion" (length items) results) by_id sha 0
        suggestions h in
    let untouched = keep (λ l. not (contains l.item_id (item_ids (ls ++ ms)))) prior in
    (
      record { items = is; suggestions = ss; lifecycles = (ls ++ ms) ++ untouched },
      rw (e, f) refl,
      record {
        audited_items = a;
        audited_suggestions = b;
        lifecycles =
            append-All (ls ++ ms) untouched (append-All ls ms w x)
              (keep-All (λ l. not (contains l.item_id (item_ids (ls ++ ms)))) prior v);
      },
    )

-- Whatever the auditor answers, an audit over well-formed lifecycles never raises. Every record comes
-- back, in its place, audited by the result that matches it; and all lifecycles of the result are
-- well-formed, as the pull request assumes when it applies them.
pub execute_lem :
    (ports : Ports) (items suggestions : List ReviewItem) (prior : List ReviewItemLifecycle)
    (results : List AuditorResult) (sha : String)
    → All IsValid prior
    → (result : ReviewAuditResult) × (execute ports items suggestions prior results sha ≡ ok result)
      × IsWhole ports items suggestions prior results result
unfolding execute
execute_lem ports [] [] prior results sha v = (
  record { items = []; suggestions = []; lifecycles = prior },
  refl,
  record { audited_items = tt; audited_suggestions = tt; lifecycles = v },
)
execute_lem ports [] (s ∷ ss) prior results sha v =
    audit_all-IsWhole ports [] (s ∷ ss) prior results sha v
execute_lem ports (i ∷ is) ss prior results sha v =
    audit_all-IsWhole ports (i ∷ is) ss prior results sha v
