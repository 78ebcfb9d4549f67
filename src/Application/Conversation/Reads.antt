-- ===== src/Application/Conversation/Reads.antt =====
-- agent_conversation_service.py: the files the model has read, and the start of a conversation
use pr_auto_reviewer.Prelude.{
  ◌+◌, max, String, Bool, false, List, [], ◌∷◌, Option, none, some, not, ◌&&◌, ltb, ◌==◌,
  if◌then◌else◌,
}
use pr_auto_reviewer.Prelude.Lists.{length, any, keep}
use pr_auto_reviewer.Prelude.Sets.{contains, add}
use pr_auto_reviewer.Domain.Guardrails.{ConversationGuardrails}
use pr_auto_reviewer.Application.Conversation.{
  ToolResult, system, initial, Ports, Phase, LoopState, coverage_targets,
}

-- `set(readable).issubset(read)`
abbrev pub all_read : List String → List String → Bool
all_read readable read = not (any (λ f. not (contains f read)) readable)

unfoldable pub coverage_complete : ConversationGuardrails → List String → List String → Bool
unfolding contains
coverage_complete g readable read = ltb 0 g.tool_calls && all_read readable read

module _ (ports : Ports) where
  unfoldable pub readable_changed_files : List String → List String
  readable_changed_files files = keep ports.is_readable files

  unfoldable pub guardrails_for_files :
      ConversationGuardrails → List String → ConversationGuardrails
  unfolding readable_changed_files
  guardrails_for_files g files =
      let required_reads = length (readable_changed_files files) in
      record g {
        max_tool_calls = max g.max_tool_calls (required_reads + 3);
        max_turns = max g.max_turns (required_reads + 5);
      }

  -- the loop of `_normalize_read_file_path`
  unfoldable pub matching_file : String → List String → Option String
  matching_file normalized [] = none
  matching_file normalized (f ∷ fs) =
      let rest = matching_file normalized fs in
      if ports.as_posix f == normalized then some f else rest

  abbrev pub matching_relative : List String → Option String → Option String
  matching_relative files none = none
  matching_relative files (some candidate) = matching_file (ports.as_posix candidate) files

  unfoldable pub normalize_read_file_path : String → List String → Option String
  unfolding matching_file
  normalize_read_file_path raw_path files = matching_relative files (ports.relative raw_path)

  abbrev pub add_path : Option String → List String → List String
  add_path none paths = paths
  add_path (some p) paths = add p paths

  abbrev pub record_path : Option String → List String → List String → List String
  record_path none files paths = paths
  record_path (some raw_path) files paths = add_path (normalize_read_file_path raw_path files) paths

  unfoldable pub record_read_file : ToolResult → List String → List String → List String
  unfolding normalize_read_file_path add
  record_read_file result files paths =
      if not (result.status == "ok") then paths else record_path result.path files paths

  unfoldable pub start : Phase → LoopState
  unfolding guardrails_for_files
  start phase = record {
    guardrails = guardrails_for_files phase.guardrails (coverage_targets phase);
    messages = system ∷ initial ∷ [];
    seen_tool_calls = [];
    read_file_paths = [];
    accumulated_praise = [];
    accumulated_suggestions = [];
    consecutive_blocks = 0;
    verdict_nudged = false;
    read_file_count = 0;
    run_snippet_count = 0;
    repeated_tool_call_streak = 0;
    calls = 0;
  }
