-- ===== src/Application/Conversation.antt =====
-- application/services/agent_conversation_service.py: the conversation loop of one review phase.
--
-- The model, the turn parser behind the command bus, the turn observer, the tools and the file system
-- are the parameters `Ports`. A call of the chat port is told its number and the messages, so the
-- answers may differ from call to call. Messages that a template renders are constructors. Logging is
-- left out.
pub mod Reads
pub mod Turn
pub mod Loop
pub mod Bounds
pub mod Ends
pub mod Coverage
pub mod Verdicts
pub mod Unparseable
use pr_auto_reviewer.Prelude.{
  ℕ, zero, suc, ◌+◌, max, String, Bool, true, false, List, [], ◌∷◌, ◌++◌, Option, none, some, not,
  ◌&&◌, ◌||◌, leb, ltb, ◌==◌, if◌then◌else◌,
}
use pr_auto_reviewer.Prelude.Lists.{length, any, keep}
use pr_auto_reviewer.Prelude.Sets.{contains, add, difference}
use pr_auto_reviewer.Prelude.Result.{
  Result, ok, raise, Error, llm_unavailable, max_turns_exceeded, advisor_blocked,
  review_budget_exhausted,
}
use pr_auto_reviewer.Prelude.Text.{truthy}
use pr_auto_reviewer.Domain.Guardrails.{
  ConversationDecision, accept_verdict, demand_exploration, refused_exploration, reprompt_empty,
  reprompt_unparseable, exceeded_empty, exceeded_unparseable, ConversationGuardrails,
  has_turns_remaining, advance_turn, mark_consecutive_success, record_empty_response,
  record_unparseable_response, record_tool_call, should_force_verdict, judge_verdict,
}

pub data TurnKind : Type 0 where
  tool_call verdict unparseable : TurnKind

-- `arguments` is the text of `json.dumps(tool_call.arguments, sort_keys=True)`.
pub record ToolCall : Type 0 where
  pub tool_name : String
  pub arguments : String

-- `path` is the text under "path" of `data`, if there is one.
pub record ToolResult : Type 0 where
  pub status : String
  pub path : Option String

-- The lists under "praise" and "suggestions" of `metadata`, each entry by its JSON text; a key that is
-- missing is an empty list.
pub record TurnParseResult : Type 0 where
  pub kind : TurnKind
  pub call : Option ToolCall
  pub praise : List String
  pub suggestions : List String

pub data SubAgentGrade : Type 0 where
  impressive amazing okok acceptable whatever dont_do_this : SubAgentGrade

pub record AdvisorDirective : Type 0 where
  pub grade : SubAgentGrade
  pub feedback : String

abbrev pub blocks_output : SubAgentGrade → Bool
blocks_output dont_do_this = true
blocks_output _ = false

abbrev pub is_whatever : SubAgentGrade → Bool
is_whatever whatever = true
is_whatever _ = false

pub data Message : Type 0 where
  system initial : Message
  assistant tool_answer : String → Message
  empty_reprompt unparseable_reprompt repeated_tool force_verdict : Message
  suggestions_praise final_verdict : Message
  advisor_block advisor_feedback : String → Message
  explore : (missing : List String) → Message

pub record Ports : Type 0 where
  pub send : ℕ → List Message → Result String
  pub parse : String → TurnParseResult
  -- `None` where no observer is wired
  pub observer : Option (ℕ → String → AdvisorDirective)
  pub execute_tool : ℕ → ToolCall → ToolResult
  -- inside the clone, and a file
  pub is_readable : String → Bool
  -- the path relative to the clone, `none` where an absolute path lies outside
  pub relative : String → Option String
  -- `Path(p).as_posix()`
  pub as_posix : String → String

-- What `_run` is called with, and the limits of the service.
pub record Phase : Type 0 where
  pub changed_files : List String
  pub coverage_files : Option (List String)
  pub guardrails : ConversationGuardrails
  pub max_advisor_blocks : ℕ

-- The variables of the loop, and how often the chat port was called.
pub record LoopState : Type 0 where
  pub guardrails : ConversationGuardrails
  pub messages : List Message
  pub seen_tool_calls : List ToolCall
  pub read_file_paths : List String
  pub accumulated_praise : List String
  pub accumulated_suggestions : List String
  pub consecutive_blocks : ℕ
  pub verdict_nudged : Bool
  pub read_file_count : ℕ
  pub run_snippet_count : ℕ
  pub repeated_tool_call_streak : ℕ
  pub calls : ℕ

abbrev pub max_repeated_tool_calls : ℕ
max_repeated_tool_calls = 3

abbrev pub min_read_file_replay_files : ℕ
min_read_file_replay_files = 2

abbrev pub same_call : ToolCall → ToolCall → Bool
same_call a b = a.tool_name == b.tool_name && a.arguments == b.arguments

-- `if e not in entries: entries.append(e)`, for each of the new ones
unfoldable pub append_new : List String → List String → List String
unfolding contains
append_new entries [] = entries
append_new entries (e ∷ es) =
    append_new (if contains e entries then entries else entries ++ e ∷ []) es

-- Against `existing` as it is: an addition that comes twice is kept twice.
unfoldable pub merge_metadata_items : List String → List String → List String
unfolding contains
merge_metadata_items existing additions =
    existing ++ keep (λ e. not (contains e existing)) additions

-- `new or old`, for lists
abbrev pub list_or : List String → List String → List String
list_or [] old = old
list_or (e ∷ es) old = e ∷ es

-- How one turn of the loop ends.
pub data Step : Type 0 where
  goes_on : LoopState → Step
  accepts : TurnParseResult → LoopState → Step
  aborts : Error → LoopState → Step

abbrev pub and_then : Step → (LoopState → Step) → Step
and_then (goes_on s) k = k s
and_then (accepts p s) k = accepts p s
and_then (aborts e s) k = aborts e s

abbrev pub say : LoopState → Message → LoopState
say s m = record s { messages = s.messages ++ m ∷ [] }

abbrev pub coverage_targets : Phase → List String
coverage_targets phase = elim phase.coverage_files [ none ↦ phase.changed_files | some fs ↦ fs ]
