-- ===== src/Infrastructure/PrRepository/Lifecycles.antt =====
-- infrastructure/persistence/json_file_pr_repository.py: `ReviewItemLifecycleCodec`.
use pr_auto_reviewer.Prelude.{String, true, ◌≡◌, refl, [], ◌∷◌, Option, none, some}
use pr_auto_reviewer.Prelude.Json.{
  Json, null, string, array, object, Object, fields, elements, get, get_text, get_optional_text,
  get_list, read_object, read_array-elements,
}
use pr_auto_reviewer.Prelude.Lists.{All}
use pr_auto_reviewer.Prelude.Result.{Result, ok, raise, unexpected, ◌>>=◌, key_error}
use pr_auto_reviewer.Prelude.Text.{truthy}
use pr_auto_reviewer.Domain.Status.{ReviewItemStatus}
use pr_auto_reviewer.Domain.Lifecycle.{
  ReviewItemTransition, ReviewItemLifecycle, new_transition, new_lifecycle,
}
use pr_auto_reviewer.Domain.Lifecycle.Moves.{IsValid}
use pr_auto_reviewer.Infrastructure.PrRepository.Items.{
  status_value, status_of, status_of-status_value,
}

-- the transitions of a lifecycle
abbrev optional_status : Option ReviewItemStatus → Json
optional_status none = null
optional_status (some s) = string (status_value s)

unfoldable pub serialize_transition : ReviewItemTransition → Json
serialize_transition transition = object (
    fields (
      ("from_status", optional_status transition.from_status)
      ∷ ("to_status", string (status_value transition.to_status))
      ∷ ("commit_sha", string transition.commit_sha)
      ∷ ("explanation", string transition.explanation)
      ∷ []))

unfoldable pub serialize_lifecycle : ReviewItemLifecycle → Json
unfolding serialize_transition
serialize_lifecycle lifecycle = object (
    fields (
      ("item_id", string lifecycle.item_id)
      ∷ ("status", string (status_value lifecycle.status))
      ∷ ("first_seen_sha", string lifecycle.first_seen_sha)
      ∷ ("last_audited_sha", string lifecycle.last_audited_sha)
      ∷ ("status_explanation", string lifecycle.status_explanation)
      ∷ ("transitions", array (elements serialize_transition lifecycle.transitions))
      ∷ []))

-- `ReviewItemStatus(value) if value is not None else None`
abbrev optional_status_of : Option String → Result (Option ReviewItemStatus)
optional_status_of none = ok none
optional_status_of (some s) = do status ← status_of s; ok (some status)

-- `raw[key]` for a text
abbrev required_text : Option Json → Result String
required_text none = raise key_error
required_text (some (string s)) = ok s
required_text (some _) = raise unexpected

unfoldable pub deserialize_transition : Object → Result ReviewItemTransition
unfolding get_text get_optional_text get status_of
deserialize_transition raw = do
  from_text ← get_optional_text "from_status" raw
  from_status ← optional_status_of from_text
  to_text ← required_text (get "to_status" raw)
  to_status ← status_of to_text
  commit_sha ← get_text "commit_sha" "" raw
  explanation ← get_text "explanation" "" raw
  new_transition from_status to_status commit_sha explanation

unfoldable pub deserialize_lifecycle : Object → Result ReviewItemLifecycle
unfolding get_text get_list deserialize_transition status_of
deserialize_lifecycle raw = do
  transitions ← get_list (read_object deserialize_transition) "transitions" raw
  item_id ← get_text "item_id" "" raw
  status_text ← get_text "status" "created" raw
  status ← status_of status_text
  first_seen_sha ← get_text "first_seen_sha" "" raw
  last_audited_sha ← get_text "last_audited_sha" "" raw
  status_explanation ← get_text "status_explanation" "" raw
  new_lifecycle (record {
    item_id = item_id;
    status = status;
    first_seen_sha = first_seen_sha;
    last_audited_sha = last_audited_sha;
    status_explanation = status_explanation;
    transitions = transitions;
  })

-- A lifecycle that its constructors accept.
pub record IsStorable (l : ReviewItemLifecycle) : Type 0 where
  pub valid : IsValid l
  pub shas : All (λ t. truthy t.commit_sha ≡ true) l.transitions

deserialize-serialize_transition :
    (t : ReviewItemTransition)
    → truthy t.commit_sha ≡ true
    → read_object deserialize_transition (serialize_transition t) ≡ ok t
unfolding deserialize_transition serialize_transition new_transition
deserialize-serialize_transition t h = by_from t.from_status
  where
    by_from :
        (from : Option ReviewItemStatus)
        → read_object deserialize_transition
            (serialize_transition (record t { from_status = from }))
          ≡ ok (record t { from_status = from })
    by_from none = rw (status_of-status_value t.to_status, h) refl
    by_from (some s) = rw (status_of-status_value s, status_of-status_value t.to_status, h) refl

pub deserialize-serialize_lifecycle :
    (l : ReviewItemLifecycle)
    → IsStorable l
    → read_object deserialize_lifecycle (serialize_lifecycle l) ≡ ok l
unfolding deserialize_lifecycle serialize_lifecycle new_lifecycle
deserialize-serialize_lifecycle l s =
    rw
      (
        read_array-elements (read_object deserialize_transition) serialize_transition
            (λ t. truthy t.commit_sha ≡ true) deserialize-serialize_transition l.transitions s.shas,
        status_of-status_value l.status,
        s.valid.item_id,
        s.valid.first_seen_sha,
        s.valid.last_audited_sha,
      )
      refl
