-- ===== src/Application/Conversation/Loop.antt =====
-- agent_conversation_service.py: the loop of `_run`, the last verdict and the praise turn
use pr_auto_reviewer.Prelude.{
  ℕ, zero, suc, ◌+◌, String, true, false, [], ◌∷◌, ◌++◌, Option, none, some, not, ◌≡◌, leb, ltb,
  if◌then◌else◌,
}
use pr_auto_reviewer.Prelude.Result.{Result, ok, raise, Error, max_turns_exceeded}
use pr_auto_reviewer.Prelude.Text.{truthy}
use pr_auto_reviewer.Domain.Guardrails.{has_turns_remaining, advance_turn}
use pr_auto_reviewer.Application.Conversation.{
  TurnParseResult, assistant, suggestions_praise, final_verdict, Ports, Phase, LoopState,
  append_new, merge_metadata_items, Step, goes_on, accepts, aborts,
}
use pr_auto_reviewer.Application.Conversation.Reads.{start}
use pr_auto_reviewer.Application.Conversation.Turn.{take_turn, is_verdict}

-- How the conversation ends; `out_of_fuel` stands for a loop that the model stopped.
pub data Outcome : Type 0 where
  finished : TurnParseResult → LoopState → Outcome
  failed : Error → LoopState → Outcome
  out_of_fuel : Outcome

abbrev pub after_loop : Option TurnParseResult × LoopState → Outcome
after_loop (none, s) = failed max_turns_exceeded s
after_loop (some parsed, s) = finished parsed s

module _ (ports : Ports) where
  abbrev pub take_praise : LoopState → Result String → LoopState
  take_praise s (raise e) = s
  take_praise s (ok content) =
      if not (truthy content)
      then s
      else (let parsed = ports.parse content in
          record s {
            messages = s.messages ++ assistant content ∷ [];
            accumulated_praise = append_new s.accumulated_praise parsed.praise;
            accumulated_suggestions = append_new s.accumulated_suggestions parsed.suggestions;
          })

  -- The turn for suggestions and praise after an accepted verdict.
  unfoldable pub praise_turn : LoopState → LoopState
  unfolding advance_turn has_turns_remaining
  praise_turn s =
      if has_turns_remaining s.guardrails
      then (let s' = record s {
        guardrails = advance_turn s.guardrails;
        messages = s.messages ++ suggestions_praise ∷ [];
        calls = s.calls + 1;
      } in
          take_praise s' (ports.send s.calls s'.messages))
      else s

  abbrev pub take_final : LoopState → Result String → Option TurnParseResult × LoopState
  take_final s (raise e) = (none, s)
  take_final s (ok content) =
      if not (truthy content)
      then (none, s)
      else (let parsed = ports.parse content in
          if not (is_verdict parsed.kind) then (none, s) else (
            some parsed,
            record s {
              messages = s.messages ++ assistant content ∷ [];
              accumulated_praise = merge_metadata_items s.accumulated_praise parsed.praise;
              accumulated_suggestions =
                  merge_metadata_items s.accumulated_suggestions parsed.suggestions;
            },
          ))

  -- `_attempt_final_verdict` and `_finish_final_verdict`
  unfoldable pub attempt_final_verdict : LoopState → Option TurnParseResult × LoopState
  attempt_final_verdict s =
      if leb s.guardrails.tool_calls 0
      then (none, s)
      else (let s' = record s {
        messages = s.messages ++ final_verdict ∷ [];
        calls = s.calls + 1;
      } in
          take_final s' (ports.send s.calls s'.messages))

  -- What one turn of the loop leads to.
  abbrev pub after_turn : (LoopState → Outcome) → Step → Outcome
  after_turn go_on (goes_on s) = go_on s
  after_turn go_on (accepts parsed s) = finished parsed (praise_turn s)
  after_turn go_on (aborts e s) = failed e s

  -- The `while` loop and what follows it.
  unfoldable pub converse : ℕ → Phase → LoopState → Outcome
  unfolding has_turns_remaining
  converse zero phase s = out_of_fuel
  converse (suc fuel) phase s = elim (has_turns_remaining s.guardrails) [
    | true ↦ after_turn (converse fuel phase) (take_turn ports phase s)
    | false ↦ after_loop (attempt_final_verdict s)
  ]

  unfoldable pub run : Phase → Outcome
  run phase = let s = start ports phase in converse (suc s.guardrails.max_turns) phase s

  pub converse-goes_on :
      (fuel : ℕ) (phase : Phase) (s : LoopState)
      → ltb s.guardrails.turn s.guardrails.max_turns ≡ true
      → converse (suc fuel) phase s ≡ after_turn (converse fuel phase) (take_turn ports phase s)
  unfolding converse has_turns_remaining
  converse-goes_on fuel phase s h = cc h

  pub converse-ends :
      (fuel : ℕ) (phase : Phase) (s : LoopState)
      → ltb s.guardrails.turn s.guardrails.max_turns ≡ false
      → converse (suc fuel) phase s ≡ after_loop (attempt_final_verdict s)
  unfolding converse has_turns_remaining
  converse-ends fuel phase s h = cc h
