-- ===== src/Domain/Severity.antt =====
-- domain/value_objects/item_severity.py
use pr_auto_reviewer.Prelude.{String, Bool, true, false, ◌≡◌, refl, ◌==◌, if◌then◌else◌}
use pr_auto_reviewer.Prelude.Text.{strip, lower}

pub data ItemSeverity : Type 0 where
  critical major minor info : ItemSeverity

-- `severity.value`
abbrev pub value : ItemSeverity → String
value critical = "critical"
value major = "major"
value minor = "minor"
value info = "info"

abbrev pub is_blocking : ItemSeverity → Bool
is_blocking critical = true
is_blocking major = true
is_blocking _ = false

-- `_PROMPT_ALIASES`, applied
prompt_alias : String → String
prompt_alias s =
    if s == "high"
    then "major"
    else if s == "medium"
    then "minor"
    else if s == "low"
    then "info"
    else s

-- `cls(normalized)`, with INFO for any other text
by_value : String → ItemSeverity
by_value s =
    if s == "critical"
    then critical
    else if s == "major"
    then major
    else if s == "minor"
    then minor
    else info

unfoldable pub from_value : String → ItemSeverity
unfolding prompt_alias by_value strip lower
from_value text = by_value (prompt_alias (lower (strip text)))

pub from_value-value : (s : ItemSeverity) → from_value (value s) ≡ s
unfolding from_value
from_value-value critical = refl
from_value-value major = refl
from_value-value minor = refl
from_value-value info = refl
