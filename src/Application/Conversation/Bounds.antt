-- ===== src/Application/Conversation/Bounds.antt =====
-- agent_conversation_service.py and conversation_guardrails.py: the counters of the loop
use pr_auto_reviewer.Prelude.{
  ◌+◌, String, true, false, Option, none, some, not, if◌then◌else◌, ◌≡◌, refl, ◌∙◌, arith,
}
use pr_auto_reviewer.Prelude.Result.{Result, ok, raise}
use pr_auto_reviewer.Prelude.Text.{truthy}
use pr_auto_reviewer.Domain.Guardrails.{
  advance_turn, mark_consecutive_success, record_empty_response, record_unparseable_response,
  record_tool_call, judge_verdict,
}
use pr_auto_reviewer.Application.Conversation.{
  TurnKind, tool_call, verdict, unparseable, ToolCall, TurnParseResult, Message, Ports, Phase,
  LoopState, list_or, Step, goes_on, accepts, aborts, and_then, say,
}
use pr_auto_reviewer.Application.Conversation.Turn.{
  on_empty, on_unparseable, on_observer, on_kind, on_content, on_tool_call, on_repeated, on_verdict,
  nudge, run_tool, on_answer, take_turn,
}

-- The state that a turn ends in.
abbrev pub state_of : Step → LoopState
state_of (goes_on s) = s
state_of (accepts p s) = s
state_of (aborts e s) = s

-- The turn, the limits and the calls of two states are the same.
abbrev Keeps : LoopState → LoopState → Type 0
Keeps s s' =
    (s'.guardrails.turn ≡ s.guardrails.turn)
    × (s'.guardrails.max_turns ≡ s.guardrails.max_turns)
    × (s'.calls ≡ s.calls)

on_empty-Keeps : (s : LoopState) → Keeps s (state_of (on_empty s))
unfolding on_empty record_empty_response
on_empty-Keeps s = ground arith

on_observer-Keeps :
    (ports : Ports) (phase : Phase) (content : String) (kind : TurnKind) (s : LoopState)
    → Keeps s (state_of (on_observer ports phase content kind s))
unfolding on_observer
on_observer-Keeps ports phase content kind s = ground arith

on_unparseable-Keeps : (s : LoopState) → Keeps s (state_of (on_unparseable s))
unfolding on_unparseable record_unparseable_response
on_unparseable-Keeps s = ground arith

on_tool_call-Keeps :
    (ports : Ports) (phase : Phase) (call : ToolCall) (s : LoopState)
    → Keeps s (state_of (on_tool_call ports phase call s))
unfolding on_tool_call on_repeated run_tool nudge record_tool_call
on_tool_call-Keeps ports phase call s = ground arith

on_verdict-Keeps :
    (ports : Ports) (phase : Phase) (parsed : TurnParseResult) (s : LoopState)
    → Keeps s (state_of (on_verdict ports phase parsed s))
unfolding on_verdict judge_verdict
on_verdict-Keeps ports phase parsed s = ground arith

on_kind-Keeps :
    (ports : Ports) (phase : Phase) (content : String) (parsed : TurnParseResult) (kind : TurnKind)
    (call : Option ToolCall) (s : LoopState)
    → Keeps s (state_of (on_kind ports phase content parsed kind call s))
unfolding on_kind
on_kind-Keeps ports phase content parsed unparseable call s = on_unparseable-Keeps s
on_kind-Keeps ports phase content parsed tool_call none s = (refl, refl, refl)
on_kind-Keeps ports phase content parsed tool_call (some call) s =
    on_tool_call-Keeps ports phase call (say s (Message.assistant content))
on_kind-Keeps ports phase content parsed verdict call s =
    on_verdict-Keeps ports phase parsed (say s (Message.assistant content))

Keeps-trans : (a b c : LoopState) → Keeps a b → Keeps b c → Keeps a c
Keeps-trans a b c (p, q, r) (p', q', r') = (p' ∙ p, q' ∙ q, r' ∙ r)

and_then-Keeps :
    (s : LoopState) (step : Step) (k : LoopState → Step)
    → Keeps s (state_of step)
    → ((s' : LoopState) → Keeps s' (state_of (k s')))
    → Keeps s (state_of (and_then step k))
and_then-Keeps s (goes_on s') k h hk = Keeps-trans s s' (state_of (k s')) h (hk s')
and_then-Keeps s (accepts p s') k h hk = h
and_then-Keeps s (aborts e s') k h hk = h

on_content-Keeps :
    (ports : Ports) (phase : Phase) (content : String) (s : LoopState)
    → Keeps s (state_of (on_content ports phase content s))
unfolding on_content mark_consecutive_success
on_content-Keeps ports phase content s =
    let parsed = ports.parse content in
    let s' = record s {
      guardrails = mark_consecutive_success s.guardrails;
      accumulated_praise = list_or parsed.praise s.accumulated_praise;
      accumulated_suggestions = list_or parsed.suggestions s.accumulated_suggestions;
    } in
    and_then-Keeps s (on_observer ports phase content parsed.kind s')
      (on_kind ports phase content parsed parsed.kind parsed.call)
      (on_observer-Keeps ports phase content parsed.kind s')
      (on_kind-Keeps ports phase content parsed parsed.kind parsed.call)

-- A turn, whichever way it ends, is one call of the model.
abbrev pub Moves : LoopState → Step → Type 0
Moves s (goes_on s') =
    (s'.guardrails.turn ≡ s.guardrails.turn + 1)
    × (s'.guardrails.max_turns ≡ s.guardrails.max_turns)
    × (s'.calls ≡ s.calls + 1)
Moves s (accepts p s') =
    (s'.guardrails.turn ≡ s.guardrails.turn + 1)
    × (s'.guardrails.max_turns ≡ s.guardrails.max_turns)
    × (s'.calls ≡ s.calls + 1)
Moves s (aborts e s') =
    (s'.guardrails.max_turns ≡ s.guardrails.max_turns) × (s'.calls ≡ s.calls + 1)

Keeps-Moves :
    (s : LoopState) (step : Step)
    → Keeps
        (record s { guardrails = advance_turn s.guardrails; calls = s.calls + 1 })
        (state_of step)
    → Moves s step
unfolding advance_turn
Keeps-Moves s (goes_on s') h = h
Keeps-Moves s (accepts p s') h = h
Keeps-Moves s (aborts e s') (p, q, r) = (q, r)

on_answer-Moves :
    (ports : Ports) (phase : Phase) (s : LoopState) (r : Result String)
    → Moves s (on_answer ports phase s r)
unfolding on_answer
on_answer-Moves ports phase s (raise e) = (refl, refl)
on_answer-Moves ports phase s (ok content) =
    let s' = record s { guardrails = advance_turn s.guardrails; calls = s.calls + 1 } in
    elim (truthy content)
      as (λ b. Moves s (if not b then on_empty s' else on_content ports phase content s')) [
        | true ↦
            Keeps-Moves s (on_content ports phase content s')
              (on_content-Keeps ports phase content s')
        | false ↦ Keeps-Moves s (on_empty s') (on_empty-Keeps s')
      ]

pub take_turn-Moves :
    (ports : Ports) (phase : Phase) (s : LoopState) → Moves s (take_turn ports phase s)
unfolding take_turn
take_turn-Moves ports phase s = on_answer-Moves ports phase s (ports.send s.calls s.messages)
