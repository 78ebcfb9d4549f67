-- ===== src/Application/Conversation/Ends.antt =====
-- agent_conversation_service.py: the end of `_run`, and its calls of the chat port
use pr_auto_reviewer.Prelude.{
  ℕ, zero, suc, ◌+◌, ◌-◌, ◌≤◌, ◌<◌, Bool-cases, ltb→lt, inl, inr, ltb, ◌≡◌, refl, sym, subst, arith,
  String,
}
use pr_auto_reviewer.Prelude.Result.{Result, ok, raise}
use pr_auto_reviewer.Application.Conversation.{
  Ports, Phase, LoopState, Step, goes_on, accepts, aborts,
}
use pr_auto_reviewer.Application.Conversation.Reads.{start}
use pr_auto_reviewer.Application.Conversation.Turn.{take_turn}
use pr_auto_reviewer.Application.Conversation.Bounds.{Moves, take_turn-Moves}
use pr_auto_reviewer.Application.Conversation.Loop.{
  Outcome, finished, failed, out_of_fuel, after_loop, after_turn, take_praise, praise_turn,
  take_final, attempt_final_verdict, converse, run, converse-goes_on, converse-ends,
}

-- The calls that are left, the last verdict's included.
abbrev pub calls_left : LoopState → ℕ
calls_left s = (s.guardrails.max_turns - s.guardrails.turn) + 1

-- The outcome of a conversation that ended after at most so many calls.
abbrev pub EndsWithin : ℕ → Outcome → Type 0
EndsWithin bound (finished p s) = s.calls ≤ bound
EndsWithin bound (failed e s) = s.calls ≤ bound
EndsWithin bound out_of_fuel = ⊥

EndsWithin-le : (a b : ℕ) (o : Outcome) → a ≤ b → EndsWithin a o → EndsWithin b o
EndsWithin-le a b (finished p s) h e = omega arith
EndsWithin-le a b (failed err s) h e = omega arith
EndsWithin-le a b out_of_fuel h e = elim e [ ]

take_praise-calls :
    (ports : Ports) (s : LoopState) (r : Result String) → (take_praise ports s r).calls ≡ s.calls
take_praise-calls ports s (raise e) = refl
take_praise-calls ports s (ok content) = ground arith

praise_turn-calls :
    (ports : Ports) (s : LoopState) → (praise_turn ports s).calls < s.calls + calls_left s
unfolding praise_turn
praise_turn-calls ports s = ground (arith, take_praise-calls ports)

take_final-EndsWithin :
    (ports : Ports) (s : LoopState) (r : Result String)
    → EndsWithin s.calls (after_loop (take_final ports s r))
take_final-EndsWithin ports s (raise e) = omega arith
take_final-EndsWithin ports s (ok content) = ground arith

attempt_final_verdict-EndsWithin :
    (ports : Ports) (s : LoopState)
    → EndsWithin (s.calls + 1) (after_loop (attempt_final_verdict ports s))
unfolding attempt_final_verdict
attempt_final_verdict-EndsWithin ports s = ground (arith, take_final-EndsWithin ports)

-- What `converse` does with a turn, when the rest of the conversation ends in time.
after_turn-EndsWithin :
    (ports : Ports) (rest : LoopState → Outcome) (s : LoopState) (step : Step)
    → s.guardrails.turn < s.guardrails.max_turns
    → Moves s step
    → ((s' : LoopState)
        → s'.guardrails.turn ≡ s.guardrails.turn + 1
        → s'.guardrails.max_turns ≡ s.guardrails.max_turns
        → EndsWithin (s'.calls + calls_left s') (rest s'))
    → EndsWithin (s.calls + calls_left s) (after_turn ports rest step)
after_turn-EndsWithin ports rest s (goes_on s') h (t, m, c) ih =
    EndsWithin-le (s'.calls + calls_left s') (s.calls + calls_left s) (rest s') (omega arith)
      (ih s' t m)
after_turn-EndsWithin ports rest s (accepts p s') h (t, m, c) ih =
    omega (arith, praise_turn-calls ports s')
after_turn-EndsWithin ports rest s (aborts e s') h (m, c) ih = omega arith

converse-EndsWithin :
    (ports : Ports) (fuel : ℕ) (phase : Phase) (s : LoopState)
    → s.guardrails.max_turns - s.guardrails.turn < fuel
    → EndsWithin (s.calls + calls_left s) (converse ports fuel phase s)
unfolding converse
converse-EndsWithin ports zero phase s h = omega arith
converse-EndsWithin ports (suc fuel) phase s h =
    elim (Bool-cases (ltb s.guardrails.turn s.guardrails.max_turns)) [
      | inl t ↦
          subst (EndsWithin (s.calls + calls_left s)) (sym (converse-goes_on ports fuel phase s t))
            (after_turn-EndsWithin ports (converse ports fuel phase) s (take_turn ports phase s)
              (ltb→lt s.guardrails.turn s.guardrails.max_turns t) (take_turn-Moves ports phase s)
              (λ s' ht hm.
                converse-EndsWithin ports fuel phase s'
                  (omega (arith, ltb→lt s.guardrails.turn s.guardrails.max_turns t))))
      | inr f ↦
          subst (EndsWithin (s.calls + calls_left s)) (sym (converse-ends ports fuel phase s f)) (
            EndsWithin-le (s.calls + 1) (s.calls + calls_left s)
              (after_loop (attempt_final_verdict ports s)) (omega arith)
              (attempt_final_verdict-EndsWithin ports s))
    ]

-- A conversation always ends: the loop runs out of turns at the latest, and the chat port is called
-- at most once for each turn that the phase has left when it starts, and once for the last verdict.
pub run-EndsWithin :
    (ports : Ports) (phase : Phase) → EndsWithin (calls_left (start ports phase)) (run ports phase)
unfolding run start
run-EndsWithin ports phase =
    let s = start ports phase in
    EndsWithin-le (s.calls + calls_left s) (calls_left s) (run ports phase) (omega arith)
      (converse-EndsWithin ports (suc s.guardrails.max_turns) phase s (omega arith))
