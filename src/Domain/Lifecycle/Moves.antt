-- ===== src/Domain/Lifecycle/Moves.antt =====
-- What `audit` and `dismiss` of a lifecycle return, with the constructors' checks gone.
use pr_auto_reviewer.Prelude.{
  String, Bool, true, false, ◌≡◌, refl, ap, none, some, ◌∙◌, [], ◌∷◌, ◌++◌,
}
use pr_auto_reviewer.Prelude.Result.{ok}
use pr_auto_reviewer.Prelude.Text.{truthy}
use pr_auto_reviewer.Domain.Status
use pr_auto_reviewer.Domain.Status.{ReviewItemStatus, created, opened, resolved, dismissed}
use pr_auto_reviewer.Domain.Lifecycle.{
  ReviewItemLifecycle, first_appearance, move_to, audit, audit_target, dismiss, dismiss_from,
}

-- What the constructor's checks ensure of every lifecycle.
pub record IsValid (l : ReviewItemLifecycle) : Type 0 where
  pub item_id : truthy l.item_id ≡ true
  pub first_seen_sha : truthy l.first_seen_sha ≡ true
  pub last_audited_sha : truthy l.last_audited_sha ≡ true

unfoldable pub moved :
    ReviewItemStatus → ReviewItemLifecycle → String → String → ReviewItemLifecycle
moved target l sha explanation = record l {
  status = target;
  last_audited_sha = sha;
  status_explanation = explanation;
  transitions =
      l.transitions
      ++ (record {
        from_status = some l.status;
        to_status = target;
        commit_sha = sha;
        explanation = explanation;
      })
        ∷ [];
}

unfoldable pub appeared : String → String → String → ReviewItemLifecycle
appeared item_id sha explanation = record {
  item_id = item_id;
  status = created;
  first_seen_sha = sha;
  last_audited_sha = sha;
  status_explanation = explanation;
  transitions =
      (record {
        from_status = none;
        to_status = created;
        commit_sha = sha;
        explanation = explanation;
      })
      ∷ [];
}

-- The status that a dismissal leaves.
abbrev pub dismiss_target : ReviewItemStatus → ReviewItemStatus
dismiss_target resolved = resolved
dismiss_target _ = dismissed

pub first_appearance-eq-appeared :
    (item_id sha explanation : String)
    → truthy item_id ≡ true
    → truthy sha ≡ true
    → first_appearance item_id sha explanation ≡ ok (appeared item_id sha explanation)
unfolding first_appearance appeared
first_appearance-eq-appeared item_id sha explanation hi hs = rw (hs, hi)

pub appeared-IsValid :
    (item_id sha explanation : String)
    → truthy item_id ≡ true
    → truthy sha ≡ true
    → IsValid (appeared item_id sha explanation)
unfolding appeared
appeared-IsValid item_id sha explanation hi hs = record {
  item_id = hi;
  first_seen_sha = hs;
  last_audited_sha = hs;
}

module _ (l : ReviewItemLifecycle) (v : IsValid l) (sha explanation : String) where
  move_to-eq-moved :
      (target : ReviewItemStatus)
      → truthy sha ≡ true
      → move_to target l sha explanation ≡ ok (moved target l sha explanation)
  unfolding move_to moved
  move_to-eq-moved target hs = rw (hs, v.item_id, v.first_seen_sha)

  pub audit-eq-moved :
      (present proof : Bool)
      → truthy sha ≡ true
      → audit l sha present proof explanation
        ≡ ok (moved (audit_target l.status present proof) l sha explanation)
  unfolding audit
  audit-eq-moved present proof hs = move_to-eq-moved (audit_target l.status present proof) hs

  audit_target_terminal :
      Status.is_terminal l.status ≡ true → audit_target l.status true false ≡ l.status
  unfolding audit_target
  audit_target_terminal t = rw t

  -- The audit of a terminal lifecycle only notes the commit.
  pub audit_terminal :
      Status.is_terminal l.status ≡ true
      → truthy sha ≡ true
      → audit l sha true false explanation ≡ ok (moved l.status l sha explanation)
  audit_terminal t hs =
      audit-eq-moved true false hs
      ∙ ap (λ s. ok (moved s l sha explanation)) (audit_target_terminal t)

  dismiss_from-eq-moved :
      (status : ReviewItemStatus)
      → l.status ≡ status
      → truthy sha ≡ true
      → dismiss_from status l sha explanation ≡ ok (moved (dismiss_target status) l sha explanation)
  unfolding dismiss_from audit_target
  dismiss_from-eq-moved created e hs = move_to-eq-moved dismissed hs
  dismiss_from-eq-moved opened e hs = move_to-eq-moved dismissed hs
  dismiss_from-eq-moved resolved e hs =
      audit-eq-moved true false hs
      ∙ ap (λ s. ok (moved (audit_target s true false) l sha explanation)) e
  dismiss_from-eq-moved dismissed e hs =
      audit-eq-moved true false hs
      ∙ ap (λ s. ok (moved (audit_target s true false) l sha explanation)) e

  pub dismiss-eq-moved :
      truthy sha ≡ true
      → dismiss l sha explanation ≡ ok (moved (dismiss_target l.status) l sha explanation)
  unfolding dismiss
  dismiss-eq-moved hs = dismiss_from-eq-moved l.status refl hs

  pub moved-IsValid :
      (target : ReviewItemStatus) → truthy sha ≡ true → IsValid (moved target l sha explanation)
  unfolding moved
  moved-IsValid target hs = record {
    item_id = v.item_id;
    first_seen_sha = v.first_seen_sha;
    last_audited_sha = hs;
  }
