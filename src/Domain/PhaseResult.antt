-- ===== src/Domain/PhaseResult.antt =====
-- domain/value_objects/phase_result.py, with entries of the model as dictionaries of texts
use pr_auto_reviewer.Prelude.{ℕ, String, List, Option}
use pr_auto_reviewer.Domain.Item.{ReviewItem}

abbrev pub Entry : Type 0
Entry = List (String × String)

pub record PhaseResult : Type 0 where
  pub items : List ReviewItem
  pub llm_verdict : Option String
  pub llm_reason : String
  pub llm_summary : String
  pub llm_suggestions : List Entry
  pub llm_praise : List Entry
  pub turn_count : ℕ
  pub read_file_calls : ℕ
  pub read_file_paths : List String
  pub run_snippet_calls : ℕ
  pub unread_changed_files : List String
  pub skip_reasons : List String
