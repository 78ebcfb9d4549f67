-- ===== src/Domain/Guardrails.antt =====
-- domain/value_objects/conversation_guardrails.py and conversation_decision.py
use pr_auto_reviewer.Prelude.{ℕ, ◌+◌, Bool, true, Option, none, some, not, leb, ltb, if◌then◌else◌}

pub data ConversationDecision : Type 0 where
  accept_verdict demand_exploration refused_exploration : ConversationDecision
  reprompt_empty reprompt_unparseable exceeded_empty exceeded_unparseable : ConversationDecision

pub record ConversationGuardrails : Type 0 where
  pub max_turns : ℕ
  pub max_empty_responses : ℕ
  pub max_unparseable_responses : ℕ
  pub exploration_required : Bool
  pub max_tool_calls : ℕ
  pub max_demands : ℕ
  pub demands_issued : ℕ
  pub turn : ℕ
  pub consecutive_empty : ℕ
  pub consecutive_unparseable : ℕ
  pub tool_calls : ℕ

-- `ConversationGuardrails(max_turns=..., max_empty_responses=..., max_unparseable_responses=...)`
unfoldable pub new_guardrails : ℕ → ℕ → ℕ → ConversationGuardrails
new_guardrails max_turns max_empty_responses max_unparseable_responses = record {
  max_turns = max_turns;
  max_empty_responses = max_empty_responses;
  max_unparseable_responses = max_unparseable_responses;
  exploration_required = true;
  max_tool_calls = 8;
  max_demands = 2;
  demands_issued = 0;
  turn = 0;
  consecutive_empty = 0;
  consecutive_unparseable = 0;
  tool_calls = 0;
}

unfoldable pub has_turns_remaining : ConversationGuardrails → Bool
has_turns_remaining g = ltb g.turn g.max_turns

unfoldable pub advance_turn : ConversationGuardrails → ConversationGuardrails
advance_turn g = record g { turn = g.turn + 1 }

unfoldable pub mark_consecutive_success : ConversationGuardrails → ConversationGuardrails
mark_consecutive_success g = record g { consecutive_empty = 0; consecutive_unparseable = 0 }

unfoldable pub record_empty_response :
    ConversationGuardrails → ConversationDecision × ConversationGuardrails
record_empty_response g =
    let next_state = record g { consecutive_empty = g.consecutive_empty + 1 } in
    if leb g.max_empty_responses (g.consecutive_empty + 1)
    then (exceeded_empty, next_state)
    else (reprompt_empty, next_state)

unfoldable pub record_unparseable_response :
    ConversationGuardrails → ConversationDecision × ConversationGuardrails
record_unparseable_response g =
    let next_state = record g { consecutive_unparseable = g.consecutive_unparseable + 1 } in
    if leb g.max_unparseable_responses (g.consecutive_unparseable + 1)
    then (exceeded_unparseable, next_state)
    else (reprompt_unparseable, next_state)

unfoldable pub record_tool_call : ConversationGuardrails → ConversationGuardrails
record_tool_call g = record g { tool_calls = g.tool_calls + 1 }

unfoldable pub should_force_verdict : ConversationGuardrails → Bool
should_force_verdict g = leb g.max_tool_calls g.tool_calls

-- `explored` of `judge_verdict`
abbrev pub explored : ConversationGuardrails → Option Bool → Bool
explored g none = ltb 0 g.tool_calls
explored g (some exploration_complete) = exploration_complete

unfoldable pub judge_verdict :
    ConversationGuardrails → Option Bool → ConversationDecision × ConversationGuardrails
judge_verdict g exploration_complete =
    if not g.exploration_required
    then (accept_verdict, g)
    else if explored g exploration_complete
    then (accept_verdict, g)
    else if leb g.max_demands g.demands_issued
    then (refused_exploration, g)
    else (demand_exploration, record g { demands_issued = g.demands_issued + 1 })
