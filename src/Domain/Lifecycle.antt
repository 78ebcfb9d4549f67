-- ===== src/Domain/Lifecycle.antt =====
-- domain/value_objects/review_item_lifecycle.py and review_item_transition.py
pub mod Moves
pub mod History
pub mod Runs
use pr_auto_reviewer.Prelude.{
  String, Bool, true, false, Option, none, some, List, [], ◌∷◌, ◌++◌, ◌&&◌, ◌||◌, not,
  if◌then◌else◌,
}
use pr_auto_reviewer.Prelude.Result.{Result, ok, raise, value_error, ◌>>=◌}
use pr_auto_reviewer.Prelude.Text.{truthy}
use pr_auto_reviewer.Domain.Status.{ReviewItemStatus, created, opened, resolved, dismissed}
use pr_auto_reviewer.Domain.Status

pub record ReviewItemTransition : Type 0 where
  pub from_status : Option ReviewItemStatus
  pub to_status : ReviewItemStatus
  pub commit_sha : String
  pub explanation : String

pub record ReviewItemLifecycle : Type 0 where
  pub item_id : String
  pub status : ReviewItemStatus
  pub first_seen_sha : String
  pub last_audited_sha : String
  pub status_explanation : String
  pub transitions : List ReviewItemTransition

-- `ReviewItemTransition(...)`, with the check of `__post_init__`
unfoldable pub new_transition :
    Option ReviewItemStatus → ReviewItemStatus → String → String → Result ReviewItemTransition
new_transition from to sha explanation =
    if truthy sha
    then ok
        (record { from_status = from; to_status = to; commit_sha = sha; explanation = explanation })
    else raise value_error

-- `ReviewItemLifecycle(...)`, with the checks of `__post_init__`
unfoldable pub new_lifecycle : ReviewItemLifecycle → Result ReviewItemLifecycle
new_lifecycle l =
    if not (truthy l.item_id)
    then raise value_error
    else if not (truthy l.first_seen_sha) || not (truthy l.last_audited_sha)
    then raise value_error
    else ok l

unfoldable pub first_appearance : String → String → String → Result ReviewItemLifecycle
unfolding new_transition new_lifecycle
first_appearance item_id commit_sha explanation = do
  transition ← new_transition none created commit_sha explanation
  new_lifecycle (record {
    item_id = item_id;
    status = created;
    first_seen_sha = commit_sha;
    last_audited_sha = commit_sha;
    status_explanation = explanation;
    transitions = transition ∷ [];
  })

abbrev pub is_active : ReviewItemLifecycle → Bool
is_active l = Status.is_active l.status

abbrev pub is_terminal : ReviewItemLifecycle → Bool
is_terminal l = Status.is_terminal l.status

-- What `audit` and `dismiss` both do with the status that they chose.
unfoldable pub move_to :
    ReviewItemStatus → ReviewItemLifecycle → String → String → Result ReviewItemLifecycle
unfolding new_transition new_lifecycle
move_to target l commit_sha explanation = do
  transition ← new_transition (some l.status) target commit_sha explanation
  new_lifecycle (record l {
    status = target;
    last_audited_sha = commit_sha;
    status_explanation = explanation;
    transitions = l.transitions ++ transition ∷ [];
  })

-- The status that an audit leaves.
unfoldable pub audit_target : ReviewItemStatus → (present proof : Bool) → ReviewItemStatus
audit_target status present proof =
    if Status.is_terminal status then status else if present && proof then resolved else opened

unfoldable pub audit :
    ReviewItemLifecycle → String → (present proof : Bool) → String → Result ReviewItemLifecycle
unfolding move_to audit_target
audit l commit_sha present proof explanation =
    move_to (audit_target l.status present proof) l commit_sha explanation

-- The branches of `dismiss`, by the status of the lifecycle.
dismiss_from : ReviewItemStatus → ReviewItemLifecycle → String → String → Result ReviewItemLifecycle
unfolding audit
dismiss_from dismissed l commit_sha explanation = audit l commit_sha true false explanation
dismiss_from resolved l commit_sha explanation = audit l commit_sha true false explanation
dismiss_from _ l commit_sha explanation = move_to dismissed l commit_sha explanation

unfoldable pub dismiss : ReviewItemLifecycle → String → String → Result ReviewItemLifecycle
unfolding dismiss_from
dismiss l commit_sha explanation = dismiss_from l.status l commit_sha explanation
