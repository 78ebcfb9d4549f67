-- ===== src/Domain/Lifecycle/Runs.antt =====
-- What any calls of `audit` and `dismiss` of a lifecycle keep.
use pr_auto_reviewer.Prelude.{
  String, Bool, true, ◌≡◌, refl, sym, subst, ap, some, List, [], ◌∷◌, ◌++◌, append-nil,
  append_assoc, ◌∙◌, ◌⊎◌, ◌↔◌, arith,
}
use pr_auto_reviewer.Prelude.Result.{ok, ok-injective}
use pr_auto_reviewer.Prelude.Text.{truthy}
use pr_auto_reviewer.Domain.Status
use pr_auto_reviewer.Domain.Status.{ReviewItemStatus, created, opened, resolved, dismissed}
use pr_auto_reviewer.Domain.Lifecycle.{
  ReviewItemTransition, ReviewItemLifecycle, first_appearance, audit, audit_target, dismiss,
  move_to, dismiss_from, is_active, is_terminal,
}
use pr_auto_reviewer.Domain.Lifecycle.Moves.{
  IsValid, moved, appeared, dismiss_target, audit-eq-moved, dismiss-eq-moved, appeared-IsValid,
}
use pr_auto_reviewer.Domain.Lifecycle.History.{
  IsHistory, Follows, transition, moved-IsHistory, Follows-audit_target, Follows-dismiss_target,
  Follows-terminal,
}

-- One call that returns.
pub data Step (l l' : ReviewItemLifecycle) : Type 0 where
  audits :
      (sha : String) (present proof : Bool) (e : String)
      → audit l sha present proof e ≡ ok l'
      → Step l l'
  dismisses : (sha e : String) → dismiss l sha e ≡ ok l' → Step l l'

-- Any number of calls, the last one on the outside.
pub data Reach (l : ReviewItemLifecycle) : ReviewItemLifecycle → Type 0 where
  here : Reach l l
  next : {m n : ReviewItemLifecycle} → Reach l m → Step m n → Reach l n

move_to-truthy :
    (to : ReviewItemStatus) (l l' : ReviewItemLifecycle) (sha e : String)
    → move_to to l sha e ≡ ok l'
    → truthy sha ≡ true
unfolding move_to
move_to-truthy to l l' sha e h = ground arith

dismiss_from-truthy :
    (s : ReviewItemStatus) (l l' : ReviewItemLifecycle) (sha e : String)
    → dismiss_from s l sha e ≡ ok l'
    → truthy sha ≡ true
unfolding dismiss_from
dismiss_from-truthy created l l' sha e h = move_to-truthy _ l l' sha e h
dismiss_from-truthy opened l l' sha e h = move_to-truthy _ l l' sha e h
dismiss_from-truthy resolved l l' sha e h = move_to-truthy _ l l' sha e h
dismiss_from-truthy dismissed l l' sha e h = move_to-truthy _ l l' sha e h

-- What a call that returns has done: one transition, to a status that may follow.
record Moved (l l' : ReviewItemLifecycle) : Type 0 where
  to : ReviewItemStatus
  sha : String
  e : String
  truthy_sha : truthy sha ≡ true
  follows : Follows (some l.status) to
  result : moved to l sha e ≡ l'

Step-Moved : {l l' : ReviewItemLifecycle} → IsValid l → Step l l' → Moved l l'
unfolding audit dismiss
Step-Moved {l} {l'} v (audits sha present proof e h) = record {
  to = audit_target l.status present proof;
  sha = sha;
  e = e;
  truthy_sha = move_to-truthy _ l l' sha e h;
  follows = Follows-audit_target l.status present proof;
  result =
      ok-injective _ _
        (sym (audit-eq-moved l v sha e present proof (move_to-truthy _ l l' sha e h)) ∙ h);
}
Step-Moved {l} {l'} v (dismisses sha e h) = record {
  to = dismiss_target l.status;
  sha = sha;
  e = e;
  truthy_sha = dismiss_from-truthy l.status l l' sha e h;
  follows = Follows-dismiss_target l.status;
  result =
      ok-injective _ _
        (sym (dismiss-eq-moved l v sha e (dismiss_from-truthy l.status l l' sha e h)) ∙ h);
}

-- What stays or only grows from `l` to `l'`.
pub record Extends (l l' : ReviewItemLifecycle) : Type 0 where
  pub history : IsHistory l'
  pub item_id : l'.item_id ≡ l.item_id
  pub first_seen_sha : l'.first_seen_sha ≡ l.first_seen_sha
  pub terminal : is_terminal l ≡ true → l'.status ≡ l.status
  pub later : List ReviewItemTransition
  pub grown : l'.transitions ≡ l.transitions ++ later

Moved-Extends : {k l l' : ReviewItemLifecycle} → Extends k l → Moved l l' → Extends k l'
unfolding moved
Moved-Extends {k} {l} {l'} x m =
    subst (λ n. Extends k n) m.result
      (record {
        history = moved-IsHistory l m.to m.sha m.e x.history m.follows m.truthy_sha;
        item_id = x.item_id;
        first_seen_sha = x.first_seen_sha;
        terminal = λ t.
            let e = x.terminal t in
            Follows-terminal l.status m.to (subst (λ s. Status.is_terminal s ≡ true) (sym e) t)
              m.follows
            ∙ e;
        later = x.later ++ transition l.status m.to m.sha m.e ∷ [];
        grown =
            ap (λ ts. ts ++ transition l.status m.to m.sha m.e ∷ []) x.grown
            ∙ append_assoc k.transitions x.later (transition l.status m.to m.sha m.e ∷ []);
      })

Reach-Extends : {l l' : ReviewItemLifecycle} → IsHistory l → Reach l l' → Extends l l'
Reach-Extends {l} h here = record {
  history = h;
  item_id = refl;
  first_seen_sha = refl;
  terminal = λ _. refl;
  later = [];
  grown = sym (append-nil l.transitions);
}
Reach-Extends h (next r st) =
    let x = Reach-Extends h r in Moved-Extends x (Step-Moved x.history.valid st)

module _ (item_id sha explanation : String) (l : ReviewItemLifecycle)
    (h : first_appearance item_id sha explanation ≡ ok l) where
  first_appearance_parts :
      (truthy item_id ≡ true) × (truthy sha ≡ true) × (l ≡ appeared item_id sha explanation)
  unfolding first_appearance appeared
  first_appearance_parts = ground arith

  first_appearance-IsHistory : IsHistory l
  unfolding appeared
  first_appearance-IsHistory =
      let (hi, hs, e) = first_appearance_parts in
      subst IsHistory (sym e) (record {
        valid = appeared-IsValid item_id sha explanation hi hs;
        chain = (refl, refl, hs, refl);
      })

  first_appearance_names : (l.item_id ≡ item_id) × (l.first_seen_sha ≡ sha)
  unfolding appeared
  first_appearance_names =
      let (hi, hs, e) = first_appearance_parts in
      (
        ap (λ (m : ReviewItemLifecycle). m.item_id) e,
        ap (λ (m : ReviewItemLifecycle). m.first_seen_sha) e,
      )

-- A lifecycle that starts by `first_appearance` and goes through any calls of `audit` and `dismiss`
-- that return keeps its item and its first commit, its transitions lead from none through CREATED to
-- its status with no gap, and CREATED, RESOLVED and DISMISSED are entered as `Follows` allows.
pub Reach-IsHistory :
    (item_id sha explanation : String) (l l' : ReviewItemLifecycle)
    → first_appearance item_id sha explanation ≡ ok l
    → Reach l l'
    → IsHistory l' × (l'.item_id ≡ item_id) × (l'.first_seen_sha ≡ sha)
Reach-IsHistory item_id sha explanation l l' h r =
    let x = Reach-Extends (first_appearance-IsHistory item_id sha explanation l h) r in
    let n = first_appearance_names item_id sha explanation l h in
    (x.history, x.item_id ∙ n.0, x.first_seen_sha ∙ n.1)

-- From a lifecycle with a sound history, any calls of `audit` and `dismiss` that return leave a
-- RESOLVED or DISMISSED status as it is, and only append to the transitions.
pub Reach-terminal :
    (l l' : ReviewItemLifecycle)
    → IsHistory l
    → Reach l l'
    → (is_terminal l ≡ true → l'.status ≡ l.status)
      × ((later : List ReviewItemTransition) × (l'.transitions ≡ l.transitions ++ later))
Reach-terminal l l' h r = let x = Reach-Extends h r in (x.terminal, (x.later, x.grown))

move_to-status :
    (to : ReviewItemStatus) (l l' : ReviewItemLifecycle) (sha e : String)
    → move_to to l sha e ≡ ok l'
    → l'.status ≡ to
unfolding move_to
move_to-status to l l' sha e h = ground arith

resolved_iff :
    (s : ReviewItemStatus) (present proof : Bool)
    → (audit_target s present proof ≡ resolved)
      ↔ ((s ≡ resolved) ⊎ ((Status.is_active s ≡ true) × (present ≡ true) × (proof ≡ true)))
unfolding audit_target
resolved_iff created present proof = ground arith
resolved_iff opened present proof = ground arith
resolved_iff resolved present proof = ground arith
resolved_iff dismissed present proof = ground arith

-- An audit that returns leaves RESOLVED exactly if the item was RESOLVED before, or was active and
-- the audit found it present with proof.
pub audit-resolved_iff :
    (l l' : ReviewItemLifecycle) (sha : String) (present proof : Bool) (e : String)
    → audit l sha present proof e ≡ ok l'
    → (l'.status ≡ resolved)
      ↔ ((l.status ≡ resolved) ⊎ ((is_active l ≡ true) × (present ≡ true) × (proof ≡ true)))
unfolding audit
audit-resolved_iff l l' sha present proof e h =
    rw (move_to-status _ l l' sha e h) (resolved_iff l.status present proof)
