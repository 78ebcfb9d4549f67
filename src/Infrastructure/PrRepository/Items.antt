-- ===== src/Infrastructure/PrRepository/Items.antt =====
-- infrastructure/persistence/json_file_pr_repository.py: `ReviewItemCodec`.
use pr_auto_reviewer.Prelude.{String, ◌≡◌, refl, [], ◌∷◌, Option, none, some, ◌==◌, if◌then◌else◌}
use pr_auto_reviewer.Prelude.Json.{
  Json, null, string, object, Object, fields, get_text, get_optional_text, read_object,
  as_optional_text,
}
use pr_auto_reviewer.Prelude.Result.{Result, ok, raise, value_error, ◌>>=◌}
use pr_auto_reviewer.Domain.Status.{ReviewItemStatus, created, opened, resolved, dismissed}
use pr_auto_reviewer.Domain.Severity
use pr_auto_reviewer.Domain.Category
use pr_auto_reviewer.Domain.Item.{ReviewItem}

-- `status.value`
abbrev pub status_value : ReviewItemStatus → String
status_value created = "created"
status_value opened = "open"
status_value resolved = "resolved"
status_value dismissed = "dismissed"

-- `ReviewItemStatus(value)`
unfoldable pub status_of : String → Result ReviewItemStatus
status_of s =
    if s == "created"
    then ok created
    else if s == "open"
    then ok opened
    else if s == "resolved"
    then ok resolved
    else if s == "dismissed"
    then ok dismissed
    else raise value_error

-- `value or ""`
abbrev or_empty : Option String → String
or_empty none = ""
or_empty (some s) = s

-- a text or None
abbrev pub optional_text : Option String → Json
optional_text none = null
optional_text (some s) = string s

unfoldable pub serialize_item : ReviewItem → Json
serialize_item item = object (
    fields (
      ("id", string item.id)
      ∷ ("severity", string (Severity.value item.severity))
      ∷ ("category", string (Category.value item.category))
      ∷ ("file_path", optional_text item.file_path)
      ∷ ("description", string item.description)
      ∷ ("line", string item.line)
      ∷ ("current_code", string item.current_code)
      ∷ ("suggested_fix", string item.suggested_fix)
      ∷ ("root_cause", string item.root_cause)
      ∷ ("reproduction", string item.reproduction)
      ∷ ("acceptance_criteria", string item.acceptance_criteria)
      ∷ ("detection_method", string item.detection_method)
      ∷ ("status", string (status_value item.status))
      ∷ ("status_explanation", string item.status_explanation)
      ∷ []))

unfoldable pub deserialize_item : Object → Result ReviewItem
unfolding get_text get_optional_text status_of
deserialize_item raw = do
  severity ← get_optional_text "severity" raw
  category ← get_optional_text "category" raw
  file_path ← get_optional_text "file_path" raw
  description ← get_text "description" "" raw
  id ← get_text "id" "" raw
  line ← get_text "line" "" raw
  current_code ← get_text "current_code" "" raw
  suggested_fix ← get_text "suggested_fix" "" raw
  root_cause ← get_text "root_cause" "" raw
  reproduction ← get_text "reproduction" "" raw
  acceptance_criteria ← get_text "acceptance_criteria" "" raw
  detection_method ← get_text "detection_method" "" raw
  status_text ← get_text "status" "open" raw
  status_explanation ← get_text "status_explanation" "" raw
  status ← status_of status_text
  ok (record {
    severity = Severity.from_value (or_empty severity);
    category = Category.from_value (or_empty category);
    file_path = file_path;
    description = description;
    line = line;
    id = id;
    current_code = current_code;
    suggested_fix = suggested_fix;
    root_cause = root_cause;
    reproduction = reproduction;
    acceptance_criteria = acceptance_criteria;
    detection_method = detection_method;
    status = status;
    status_explanation = status_explanation;
  })

pub status_of-status_value : (s : ReviewItemStatus) → status_of (status_value s) ≡ ok s
unfolding status_of
status_of-status_value created = refl
status_of-status_value opened = refl
status_of-status_value resolved = refl
status_of-status_value dismissed = refl

pub as_optional_text-optional_text :
    (o : Option String) → as_optional_text (some (optional_text o)) ≡ ok o
as_optional_text-optional_text none = refl
as_optional_text-optional_text (some s) = refl

pub deserialize-serialize_item :
    (item : ReviewItem) → read_object deserialize_item (serialize_item item) ≡ ok item
unfolding serialize_item deserialize_item
deserialize-serialize_item item =
    rw
      (
        as_optional_text-optional_text item.file_path,
        status_of-status_value item.status,
        Severity.from_value-value item.severity,
        Category.from_value-value item.category,
      )
      refl
