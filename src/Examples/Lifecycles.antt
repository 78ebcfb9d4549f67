-- ===== src/Examples/Lifecycles.antt =====
-- Lifecycles of review items at concrete commits.
use pr_auto_reviewer.Prelude.{Bool, true, List, ◌++◌, ◌≡◌, refl, ◌↔◌, ◌⊎◌}
use pr_auto_reviewer.Prelude.Result.{ok}
use pr_auto_reviewer.Domain.Status.{resolved}
use pr_auto_reviewer.Domain.Lifecycle.{
  ReviewItemTransition, ReviewItemLifecycle, first_appearance, audit, dismiss, is_active,
  is_terminal,
}
use pr_auto_reviewer.Domain.Lifecycle.Moves.{moved, appeared}
use pr_auto_reviewer.Domain.Lifecycle.History.{IsHistory}
use pr_auto_reviewer.Domain.Lifecycle.Runs.{
  audits, dismisses, Reach, here, next, Reach-IsHistory, Reach-terminal, audit-resolved_iff,
}

abbrev l₀ : ReviewItemLifecycle
l₀ = appeared "a1b2" "111" "First appearance"

abbrev l₁ : ReviewItemLifecycle
l₁ = moved resolved l₀ "222" "verified"

abbrev l₂ : ReviewItemLifecycle
l₂ = moved resolved l₁ "333" "Dismissed by command"

first_run : first_appearance "a1b2" "111" "First appearance" ≡ ok l₀
unfolding first_appearance appeared
first_run = refl

audit_run : audit l₀ "222" true true "verified" ≡ ok l₁
unfolding audit moved appeared
audit_run = refl

dismiss_run : dismiss l₁ "333" "Dismissed by command" ≡ ok l₂
unfolding dismiss moved appeared
dismiss_run = refl

run : Reach l₀ l₂
run =
    next (next here (audits "222" true true "verified" audit_run))
      (dismisses "333" "Dismissed by command" dismiss_run)

Reach-IsHistory_example : IsHistory l₂ × (l₂.item_id ≡ "a1b2") × (l₂.first_seen_sha ≡ "111")
Reach-IsHistory_example = Reach-IsHistory "a1b2" "111" "First appearance" l₀ l₂ first_run run

resolved-IsHistory : IsHistory l₁
resolved-IsHistory =
    (Reach-IsHistory "a1b2" "111" "First appearance" l₀ l₁ first_run
      (next here (audits "222" true true "verified" audit_run))).0

Reach-terminal_example :
    (is_terminal l₁ ≡ true → l₂.status ≡ l₁.status)
    × ((later : List ReviewItemTransition) × (l₂.transitions ≡ l₁.transitions ++ later))
Reach-terminal_example =
    Reach-terminal l₁ l₂ resolved-IsHistory
      (next here (dismisses "333" "Dismissed by command" dismiss_run))

audit-resolved_iff_example : (l₁.status ≡ resolved) ↔ (
    (l₀.status ≡ resolved)
    ⊎ ((is_active l₀ ≡ true) × (◌≡◌ {A = Bool} true true) × (◌≡◌ {A = Bool} true true)))
audit-resolved_iff_example = audit-resolved_iff l₀ l₁ "222" true true "verified" audit_run
