-- ===== src/Domain/Lifecycle/History.antt =====
-- The history of a lifecycle: what its transitions say, and one transition more.
use pr_auto_reviewer.Prelude.{
  String, Bool, true, ◌≡◌, refl, sym, subst, none, some, Option, List, [], ◌∷◌, ◌++◌, ◌≢◌, arith,
}
use pr_auto_reviewer.Prelude.Text.{truthy}
use pr_auto_reviewer.Domain.Status
use pr_auto_reviewer.Domain.Status.{ReviewItemStatus, created, opened, resolved, dismissed}
use pr_auto_reviewer.Domain.Lifecycle.{ReviewItemTransition, ReviewItemLifecycle, audit_target}
use pr_auto_reviewer.Domain.Lifecycle.Moves.{IsValid, moved, dismiss_target, moved-IsValid}

-- Which status may follow which: an item is created once, and a terminal status stays.
abbrev pub Follows : Option ReviewItemStatus → ReviewItemStatus → Type 0
Follows none to = to ≡ created
Follows (some resolved) to = to ≡ resolved
Follows (some dismissed) to = to ≡ dismissed
Follows (some _) to = to ≢ created

-- The transitions lead from one status to another without a gap, each at a commit.
abbrev pub Chain : Option ReviewItemStatus → List ReviewItemTransition → ReviewItemStatus → Type 0
Chain from [] status = from ≡ some status
Chain from (t ∷ ts) status =
    (t.from_status ≡ from)
    × Follows from t.to_status
    × (truthy t.commit_sha ≡ true)
    × Chain (some t.to_status) ts status

pub record IsHistory (l : ReviewItemLifecycle) : Type 0 where
  pub valid : IsValid l
  pub chain : Chain none l.transitions l.status

module _ (s to : ReviewItemStatus) (sha e : String) where
  abbrev pub transition : ReviewItemTransition
  transition = record { from_status = some s; to_status = to; commit_sha = sha; explanation = e }

  Chain-snoc :
      (from : Option ReviewItemStatus) (ts : List ReviewItemTransition)
      → Chain from ts s
      → Follows (some s) to
      → truthy sha ≡ true
      → Chain from (ts ++ transition ∷ []) to
  Chain-snoc from [] c f hs = (sym c, subst (λ o. Follows o to) (sym c) f, hs, refl)
  Chain-snoc from (t ∷ ts) c f hs = (c.0, c.1, c.2, Chain-snoc (some t.to_status) ts c.3 f hs)

pub moved-IsHistory :
    (l : ReviewItemLifecycle) (to : ReviewItemStatus) (sha e : String)
    → IsHistory l
    → Follows (some l.status) to
    → truthy sha ≡ true
    → IsHistory (moved to l sha e)
unfolding moved
moved-IsHistory l to sha e h f hs = record {
  valid = moved-IsValid l h.valid sha e to hs;
  chain = Chain-snoc l.status to sha e none l.transitions h.chain f hs;
}

pub Follows-audit_target :
    (s : ReviewItemStatus) (present proof : Bool) → Follows (some s) (audit_target s present proof)
unfolding audit_target
Follows-audit_target s present proof = ground arith

pub Follows-dismiss_target : (s : ReviewItemStatus) → Follows (some s) (dismiss_target s)
Follows-dismiss_target created = λ e. cc
Follows-dismiss_target opened = λ e. cc
Follows-dismiss_target resolved = refl
Follows-dismiss_target dismissed = refl

pub Follows-terminal :
    (s to : ReviewItemStatus) → Status.is_terminal s ≡ true → Follows (some s) to → to ≡ s
Follows-terminal created to t f = cc
Follows-terminal opened to t f = cc
Follows-terminal resolved to t f = f
Follows-terminal dismissed to t f = f
