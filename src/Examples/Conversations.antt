-- ===== src/Examples/Conversations.antt =====
-- Conversations of the model with a review phase, run on two changed files
use pr_auto_reviewer.Prelude.{
  ℕ, zero, suc, String, true, List, [], ◌∷◌, Option, none, some, ◌==◌, if◌then◌else◌, ◌≡◌, refl,
  arith,
}
use pr_auto_reviewer.Prelude.Result.{Result, ok, raise, llm_unavailable}
use pr_auto_reviewer.Domain.Guardrails.{new_guardrails}
use pr_auto_reviewer.Application.Conversation.{TurnParseResult, TurnKind, ToolCall, Ports, Phase}
use pr_auto_reviewer.Application.Conversation.Reads.{start}
use pr_auto_reviewer.Application.Conversation.Turn.{
  on_observer, on_kind, on_verdict, on_tool_call, on_content, nudge, run_tool, take_turn,
}
use pr_auto_reviewer.Application.Conversation.Loop.{
  Outcome, finished, failed, out_of_fuel, praise_turn, converse, run,
}
use pr_auto_reviewer.Application.Conversation.Ends.{EndsWithin, run-EndsWithin}
use pr_auto_reviewer.Application.Conversation.Verdicts.{RestsOnReads, run-RestsOnReads}
use pr_auto_reviewer.Application.Conversation.Unparseable.{OutOfTurns, run-OutOfTurns}

abbrev turn : TurnKind → Option ToolCall → TurnParseResult
turn kind call = record { kind = kind; call = call; praise = []; suggestions = [] }

abbrev read_file : String → ToolCall
read_file path = record { tool_name = "read_file"; arguments = path }

abbrev parse_sample : String → TurnParseResult
parse_sample content =
    if content == "verdict"
    then turn TurnKind.verdict none
    else if content == "noise"
    then turn TurnKind.unparseable none
    else turn TurnKind.tool_call (some (read_file content))

-- A verdict too early, then the two files, then a verdict; after that the model is gone.
abbrev answer_at : List (Result String) → ℕ → Result String
answer_at [] n = raise llm_unavailable
answer_at (a ∷ rest) zero = a
answer_at (a ∷ rest) (suc n) = answer_at rest n

abbrev answers : ℕ → Result String
answers = answer_at (ok "verdict" ∷ ok "a.py" ∷ ok "b.py" ∷ ok "verdict" ∷ [])

abbrev sample_ports : (ℕ → Result String) → Ports
sample_ports answer = record {
  send = λ n messages. answer n;
  parse = parse_sample;
  observer = none;
  execute_tool = λ n call. record { status = "ok"; path = some call.arguments };
  is_readable = λ path. true;
  relative = λ path. some path;
  as_posix = λ path. path;
}

abbrev sample_phase : Phase
sample_phase = record {
  changed_files = "a.py" ∷ "b.py" ∷ [];
  coverage_files = none;
  guardrails = new_guardrails 6 3 3;
  max_advisor_blocks = 3;
}

abbrev calls_made : Outcome → ℕ
calls_made (finished p s) = s.calls
calls_made (failed e s) = s.calls
calls_made out_of_fuel = 0

-- The early verdict is refused, the later one taken; the fifth call asks for praise.
explores_first : calls_made (run (sample_ports answers) sample_phase) ≡ 5
unfolding run start converse new_guardrails take_turn on_content on_observer on_kind on_verdict
    on_tool_call nudge run_tool praise_turn
explores_first = refl

run-EndsWithin_example : EndsWithin 8 (run (sample_ports answers) sample_phase)
unfolding start new_guardrails
run-EndsWithin_example = run-EndsWithin (sample_ports answers) sample_phase

run-RestsOnReads_example :
    RestsOnReads (sample_ports answers) sample_phase (run (sample_ports answers) sample_phase)
unfolding new_guardrails
run-RestsOnReads_example = run-RestsOnReads (sample_ports answers) sample_phase refl

run-OutOfTurns_example : OutOfTurns 7 (run (sample_ports (λ n. ok "noise")) sample_phase)
unfolding new_guardrails start
run-OutOfTurns_example =
    run-OutOfTurns (sample_ports (λ n. ok "noise")) sample_phase refl (λ n messages. (refl, refl))
      (omega arith) (omega arith)
