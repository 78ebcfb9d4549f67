-- ===== src/Application/Conversation/Turn.antt =====
-- agent_conversation_service.py: one turn of the loop of `_run`
use pr_auto_reviewer.Prelude.{
  ℕ, ◌+◌, String, Bool, true, false, [], ◌∷◌, ◌++◌, Option, none, some, not, ◌&&◌, leb, ◌==◌,
  if◌then◌else◌,
}
use pr_auto_reviewer.Prelude.Lists.{length, any}
use pr_auto_reviewer.Prelude.Sets.{difference}
use pr_auto_reviewer.Prelude.Result.{
  Result, ok, raise, llm_unavailable, max_turns_exceeded, advisor_blocked, review_budget_exhausted,
}
use pr_auto_reviewer.Prelude.Text.{truthy}
use pr_auto_reviewer.Domain.Guardrails.{
  accept_verdict, refused_exploration, exceeded_empty, exceeded_unparseable, advance_turn,
  mark_consecutive_success, record_empty_response, record_unparseable_response, record_tool_call,
  should_force_verdict, judge_verdict,
}
use pr_auto_reviewer.Application.Conversation.{
  TurnKind, tool_call, verdict, unparseable, ToolCall, TurnParseResult, AdvisorDirective,
  blocks_output, is_whatever, assistant, tool_answer, empty_reprompt, unparseable_reprompt,
  repeated_tool, force_verdict, advisor_block, advisor_feedback, explore, Ports, Phase, LoopState,
  max_repeated_tool_calls, min_read_file_replay_files, same_call, list_or, Step, goes_on, accepts,
  aborts, and_then, say, coverage_targets,
}
use pr_auto_reviewer.Application.Conversation.Reads.{
  readable_changed_files, record_read_file, coverage_complete,
}

-- The branch of an empty answer.
unfoldable pub on_empty : LoopState → Step
unfolding record_empty_response
on_empty s =
    let (decision, g) = record_empty_response s.guardrails in
    let s' = record s { guardrails = g } in
    elim decision [
      | exceeded_empty ↦ aborts llm_unavailable s'
      | _ ↦ goes_on (say s' empty_reprompt)
    ]

abbrev pub take_directive : Phase → AdvisorDirective → LoopState → Step
take_directive phase d s =
    if blocks_output d.grade
    then (let s' = record s {
      consecutive_blocks = s.consecutive_blocks + 1;
      messages = s.messages ++ advisor_block d.feedback ∷ [];
    } in
        if leb phase.max_advisor_blocks (s.consecutive_blocks + 1)
        then aborts advisor_blocked s'
        else goes_on s')
    else (let s' = record s { consecutive_blocks = 0 } in
        if truthy d.feedback && is_whatever d.grade
        then goes_on (say s' (advisor_feedback d.feedback))
        else goes_on s')

abbrev pub is_verdict : TurnKind → Bool
is_verdict verdict = true
is_verdict _ = false

module _ (ports : Ports) where
  abbrev pub observe_by :
      Option (ℕ → String → AdvisorDirective) → Phase → String → TurnKind → LoopState → Step
  observe_by none phase content kind s = goes_on s
  observe_by (some observe) phase content kind s =
      if is_verdict kind then goes_on s else take_directive phase (observe s.calls content) s

  -- The turn observer's part.
  unfoldable pub on_observer : Phase → String → TurnKind → LoopState → Step
  on_observer phase content kind s = observe_by ports.observer phase content kind s

unfoldable pub on_unparseable : LoopState → Step
unfolding record_unparseable_response
on_unparseable s =
    let (decision, g) = record_unparseable_response s.guardrails in
    let s' = record s { guardrails = g } in
    elim decision [
      | exceeded_unparseable ↦ aborts llm_unavailable s'
      | _ ↦ goes_on (say s' unparseable_reprompt)
    ]

-- `call_key in seen_tool_calls and not allow_read_file_replay`
abbrev pub is_repeated : Phase → ToolCall → LoopState → Bool
is_repeated phase call s =
    let allow_read_file_replay =
      call.tool_name == "read_file"
      && leb min_read_file_replay_files (length phase.changed_files) in
    any (λ seen. same_call seen call) s.seen_tool_calls && not allow_read_file_replay

unfoldable pub on_repeated : LoopState → Step
on_repeated s =
    let s' = record s { repeated_tool_call_streak = s.repeated_tool_call_streak + 1 } in
    if leb max_repeated_tool_calls (s.repeated_tool_call_streak + 1)
    then aborts review_budget_exhausted s'
    else goes_on (say s' repeated_tool)

unfoldable pub nudge : LoopState → LoopState
unfolding should_force_verdict
nudge s =
    if should_force_verdict s.guardrails && not s.verdict_nudged
    then say (record s { verdict_nudged = true }) force_verdict
    else s

module _ (ports : Ports) where
  -- The call is executed and its result recorded.
  unfoldable pub run_tool : Phase → ToolCall → LoopState → LoopState
  unfolding record_tool_call record_read_file readable_changed_files
  run_tool phase call s =
      let result = ports.execute_tool s.calls call in
      record s {
        guardrails = record_tool_call s.guardrails;
        messages = s.messages ++ tool_answer result.status ∷ [];
        seen_tool_calls = call ∷ s.seen_tool_calls;
        read_file_paths =
            if call.tool_name == "read_file"
            then record_read_file ports result (readable_changed_files ports phase.changed_files)
                s.read_file_paths
            else s.read_file_paths;
        read_file_count =
            if call.tool_name == "read_file" then s.read_file_count + 1 else s.read_file_count;
        run_snippet_count =
            if call.tool_name == "run_snippet"
            then s.run_snippet_count + 1
            else s.run_snippet_count;
        repeated_tool_call_streak = 0;
      }

  unfoldable pub on_tool_call : Phase → ToolCall → LoopState → Step
  on_tool_call phase call s =
      if is_repeated phase call s then on_repeated s else goes_on (nudge (run_tool phase call s))

  unfoldable pub on_verdict : Phase → TurnParseResult → LoopState → Step
  unfolding coverage_complete judge_verdict readable_changed_files
  on_verdict phase parsed s =
      let readable = readable_changed_files ports (coverage_targets phase) in
      let (decision, g) =
        judge_verdict s.guardrails
          (some (coverage_complete s.guardrails readable s.read_file_paths)) in
      let s' = record s { guardrails = g } in
      elim decision [
        | accept_verdict ↦ accepts parsed s'
        | refused_exploration ↦ aborts max_turns_exceeded s'
        | _ ↦ goes_on (say s' (explore (difference readable s.read_file_paths)))
      ]

  -- What follows the observer, by the kind of the turn. A tool call without a call falls through.
  unfoldable pub on_kind :
      Phase → String → TurnParseResult → TurnKind → Option ToolCall → LoopState → Step
  on_kind phase content parsed unparseable call s = on_unparseable s
  on_kind phase content parsed tool_call none s = goes_on (say s (assistant content))
  on_kind phase content parsed tool_call (some call) s =
      on_tool_call phase call (say s (assistant content))
  on_kind phase content parsed verdict call s = on_verdict phase parsed (say s (assistant content))

  unfoldable pub on_content : Phase → String → LoopState → Step
  unfolding mark_consecutive_success
  on_content phase content s =
      let parsed = ports.parse content in
      let s' = record s {
        guardrails = mark_consecutive_success s.guardrails;
        accumulated_praise = list_or parsed.praise s.accumulated_praise;
        accumulated_suggestions = list_or parsed.suggestions s.accumulated_suggestions;
      } in
      and_then (on_observer ports phase content parsed.kind s')
        (on_kind phase content parsed parsed.kind parsed.call)

  unfoldable pub on_answer : Phase → LoopState → Result String → Step
  unfolding advance_turn
  on_answer phase s (raise e) = aborts e (record s { calls = s.calls + 1 })
  on_answer phase s (ok content) =
      let s' = record s { guardrails = advance_turn s.guardrails; calls = s.calls + 1 } in
      if not (truthy content) then on_empty s' else on_content phase content s'

  -- The body of the `while` loop.
  unfoldable pub take_turn : Phase → LoopState → Step
  unfolding on_answer
  take_turn phase s = on_answer phase s (ports.send s.calls s.messages)
