-- ===== src/Domain/Status.antt =====
-- domain/value_objects/review_item_status.py
use pr_auto_reviewer.Prelude.{Bool, true, false}

-- `opened` is the source's OPEN: the word `open` is reserved here.
pub data ReviewItemStatus : Type 0 where
  created opened resolved dismissed : ReviewItemStatus

abbrev pub is_active : ReviewItemStatus → Bool
is_active created = true
is_active opened = true
is_active _ = false

abbrev pub is_terminal : ReviewItemStatus → Bool
is_terminal resolved = true
is_terminal dismissed = true
is_terminal _ = false
