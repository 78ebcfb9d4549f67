-- ===== src/Domain/Item.antt =====
-- domain/entities/review_item.py
use pr_auto_reviewer.Prelude.{String, Bool, Option, ◌&&◌, ◌||◌}
use pr_auto_reviewer.Domain.Status.{ReviewItemStatus, opened}
use pr_auto_reviewer.Domain.Status
use pr_auto_reviewer.Domain.Severity.{ItemSeverity}
use pr_auto_reviewer.Domain.Severity
use pr_auto_reviewer.Domain.Category.{IssueCategory, is_security}

-- The constructor's calls of `from_value` return the members that they are given, by
-- `Severity.from_value-value` and `Category.from_value-value`.
pub record ReviewItem : Type 0 where
  pub severity : ItemSeverity
  pub category : IssueCategory
  pub file_path : Option String
  pub description : String
  pub line : String
  pub id : String
  pub current_code : String
  pub suggested_fix : String
  pub root_cause : String
  pub reproduction : String
  pub acceptance_criteria : String
  pub detection_method : String
  pub status : ReviewItemStatus
  pub status_explanation : String

-- `ReviewItem(severity, category, file_path, description, line, id, current_code, suggested_fix)`,
-- with the constructor's defaults for the rest
abbrev pub new_item :
    ItemSeverity
    → IssueCategory
    → Option String
    → String
    → String
    → String
    → String
    → String
    → ReviewItem
new_item severity category file_path description line id current_code suggested_fix = record {
  severity = severity;
  category = category;
  file_path = file_path;
  description = description;
  line = line;
  id = id;
  current_code = current_code;
  suggested_fix = suggested_fix;
  root_cause = "";
  reproduction = "";
  acceptance_criteria = "";
  detection_method = "";
  status = opened;
  status_explanation = "";
}

abbrev pub is_active : ReviewItem → Bool
is_active item = Status.is_active item.status

-- the property `is_open` is `is_active`
abbrev pub is_open : ReviewItem → Bool
is_open item = is_active item

abbrev pub is_blocking : ReviewItem → Bool
is_blocking item = Severity.is_blocking item.severity || is_security item.category

abbrev pub is_open_blocking : ReviewItem → Bool
is_open_blocking item = is_open item && is_blocking item
