-- ===== src/Domain/Review/Coherence.antt =====
-- A verdict against the findings that block a merge.
use pr_auto_reviewer.Prelude.{true, false, ◌≡◌, ◌↔◌, List, [], ◌∷◌, arith}
use pr_auto_reviewer.Prelude.Lists.{any}
use pr_auto_reviewer.Domain.Item.{ReviewItem, is_open_blocking}
use pr_auto_reviewer.Domain.Verdict.{ReviewVerdict, approved, changes_requested}
use pr_auto_reviewer.Domain.Review.{verdict_for, is_coherent, reconcile}

pub verdict_for-changes_iff :
    (items : List ReviewItem)
    → (verdict_for items ≡ changes_requested) ↔ (any is_open_blocking items ≡ true)
unfolding verdict_for
verdict_for-changes_iff [] = ground arith
verdict_for-changes_iff (i ∷ is) = ground arith

pub verdict_for-approved_iff :
    (items : List ReviewItem)
    → (verdict_for items ≡ approved) ↔ (any is_open_blocking items ≡ false)
unfolding verdict_for
verdict_for-approved_iff [] = ground arith
verdict_for-approved_iff (i ∷ is) = ground arith

-- `reconcile` returns a verdict that is coherent with the items, and keeps a verdict that is: an
-- approval comes with no open blocking item, a change request with at least one. COMMENTED is
-- coherent with any items, so it is kept too.
pub reconcile-is_coherent :
    (verdict : ReviewVerdict) (items : List ReviewItem)
    → (is_coherent (reconcile verdict items) items ≡ true)
      × (is_coherent verdict items ≡ true → reconcile verdict items ≡ verdict)
      × (reconcile verdict items ≡ approved → any is_open_blocking items ≡ false)
      × (reconcile verdict items ≡ changes_requested → any is_open_blocking items ≡ true)
unfolding reconcile
reconcile-is_coherent verdict [] = ground arith
reconcile-is_coherent verdict (i ∷ is) = ground arith
