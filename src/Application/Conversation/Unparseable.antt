-- ===== src/Application/Conversation/Unparseable.antt =====
-- agent_conversation_service.py: answers that the turn parser cannot read
use pr_auto_reviewer.Prelude.{
  ℕ, zero, suc, ◌+◌, ◌≤◌, ◌<◌, true, ltb, ◌≡◌, refl, sym, arith, inl, inr, Bool-cases, subst, none,
  String, List, not, if◌then◌else◌, ltb→lt,
}
use pr_auto_reviewer.Prelude.Result.{Result, ok, raise, max_turns_exceeded}
use pr_auto_reviewer.Prelude.Text.{truthy}
use pr_auto_reviewer.Domain.Guardrails.{
  advance_turn, mark_consecutive_success, record_unparseable_response,
}
use pr_auto_reviewer.Application.Conversation.{
  unparseable, Ports, Phase, LoopState, Message, Step, goes_on, accepts, aborts,
}
use pr_auto_reviewer.Application.Conversation.Reads.{start, guardrails_for_files}
use pr_auto_reviewer.Application.Conversation.Turn.{
  take_turn, on_answer, on_content, on_empty, on_observer, on_unparseable, on_kind,
}
use pr_auto_reviewer.Application.Conversation.Loop.{
  Outcome, failed, out_of_fuel, finished, after_loop, after_turn, take_final, attempt_final_verdict,
  converse, run, converse-goes_on, converse-ends,
}

-- An answer is text that the parser does not read.
abbrev pub IsNoise : Ports → Result String → Type 0
IsNoise ports (ok content) = (truthy content ≡ true) × ((ports.parse content).kind ≡ unparseable)
IsNoise ports (raise e) = ⊥

-- The turn ends with another prompt.
abbrev Reprompts : LoopState → Step → Type 0
Reprompts s (goes_on s') =
    (s'.guardrails.turn ≡ s.guardrails.turn + 1)
    × (s'.guardrails.max_turns ≡ s.guardrails.max_turns)
    × (s'.guardrails.max_unparseable_responses ≡ s.guardrails.max_unparseable_responses)
Reprompts s (accepts p s') = ⊥
Reprompts s (aborts e s') = ⊥

on_content-Reprompts :
    (ports : Ports) (phase : Phase) (content : String) (s : LoopState)
    → ports.observer ≡ none
    → (ports.parse content).kind ≡ unparseable
    → 2 ≤ s.guardrails.max_unparseable_responses
    → Reprompts s (
        on_content ports phase content
          (record s { guardrails = advance_turn s.guardrails; calls = s.calls + 1 }))
unfolding on_content on_observer on_kind on_unparseable mark_consecutive_success advance_turn
    record_unparseable_response
on_content-Reprompts ports phase content s none_wired noise two = ground arith

on_answer-Reprompts :
    (ports : Ports) (phase : Phase) (s : LoopState) (r : Result String)
    → ports.observer ≡ none
    → IsNoise ports r
    → 2 ≤ s.guardrails.max_unparseable_responses
    → Reprompts s (on_answer ports phase s r)
unfolding on_answer
on_answer-Reprompts ports phase s (raise e) w noise two = elim noise [ ]
on_answer-Reprompts ports phase s (ok content) w (t, k) two =
    let s' = record s { guardrails = advance_turn s.guardrails; calls = s.calls + 1 } in
    subst (λ b. Reprompts s (if not b then on_empty s' else on_content ports phase content s'))
      (sym t) (on_content-Reprompts ports phase content s w k two)

take_final-noise :
    (ports : Ports) (s : LoopState) (r : Result String)
    → IsNoise ports r
    → take_final ports s r ≡ (none, s)
take_final-noise ports s (raise e) noise = refl
take_final-noise ports s (ok content) noise = ground arith

-- The conversation failed for want of turns, none of which is left.
abbrev pub OutOfTurns : ℕ → Outcome → Type 0
OutOfTurns max_turns (failed e s) = (e ≡ max_turns_exceeded) × (s.guardrails.turn ≡ max_turns)
OutOfTurns max_turns (finished p s) = ⊥
OutOfTurns max_turns out_of_fuel = ⊥

attempt_final_verdict-OutOfTurns :
    (ports : Ports) (s : LoopState)
    → ((n : ℕ) (messages : List Message) → IsNoise ports (ports.send n messages))
    → OutOfTurns s.guardrails.turn (after_loop (attempt_final_verdict ports s))
unfolding attempt_final_verdict
attempt_final_verdict-OutOfTurns ports s noise = grind (arith, take_final-noise ports)

after_turn-OutOfTurns :
    (ports : Ports) (rest : LoopState → Outcome) (s : LoopState) (step : Step)
    → Reprompts s step
    → ((s' : LoopState)
        → s'.guardrails.turn ≡ s.guardrails.turn + 1
        → s'.guardrails.max_turns ≡ s.guardrails.max_turns
        → s'.guardrails.max_unparseable_responses ≡ s.guardrails.max_unparseable_responses
        → OutOfTurns s'.guardrails.max_turns (rest s'))
    → OutOfTurns s.guardrails.max_turns (after_turn ports rest step)
after_turn-OutOfTurns ports rest s (goes_on s') (t, m, u) ih =
    subst (λ n. OutOfTurns n (rest s')) m (ih s' t m u)
after_turn-OutOfTurns ports rest s (accepts p s') r ih = elim r [ ]
after_turn-OutOfTurns ports rest s (aborts e s') r ih = elim r [ ]

take_turn-Reprompts :
    (ports : Ports) (phase : Phase) (s : LoopState)
    → ports.observer ≡ none
    → ((n : ℕ) (messages : List Message) → IsNoise ports (ports.send n messages))
    → 2 ≤ s.guardrails.max_unparseable_responses
    → Reprompts s (take_turn ports phase s)
unfolding take_turn
take_turn-Reprompts ports phase s w noise two =
    on_answer-Reprompts ports phase s (ports.send s.calls s.messages) w (noise s.calls s.messages)
      two

converse-OutOfTurns :
    (ports : Ports) (fuel : ℕ) (phase : Phase) (s : LoopState)
    → ports.observer ≡ none
    → ((n : ℕ) (messages : List Message) → IsNoise ports (ports.send n messages))
    → 2 ≤ s.guardrails.max_unparseable_responses
    → s.guardrails.turn ≤ s.guardrails.max_turns
    → s.guardrails.max_turns < fuel + s.guardrails.turn
    → OutOfTurns s.guardrails.max_turns (converse ports fuel phase s)
unfolding converse
converse-OutOfTurns ports zero phase s w noise two h enough = omega arith
converse-OutOfTurns ports (suc fuel) phase s w noise two h enough =
    elim (Bool-cases (ltb s.guardrails.turn s.guardrails.max_turns)) [
      | inl t ↦
          subst (OutOfTurns s.guardrails.max_turns) (sym (converse-goes_on ports fuel phase s t)) (
            after_turn-OutOfTurns ports (converse ports fuel phase) s (take_turn ports phase s)
              (take_turn-Reprompts ports phase s w noise two)
              (λ s' ht hm hu.
                converse-OutOfTurns ports fuel phase s' w noise (omega arith)
                  (omega (arith, ltb→lt s.guardrails.turn s.guardrails.max_turns t)) (omega arith)))
      | inr f ↦
          subst (OutOfTurns s.guardrails.max_turns) (sym (converse-ends ports fuel phase s f)) (
            subst (λ n. OutOfTurns n (after_loop (attempt_final_verdict ports s)))
              (ground (arith, f, h)) (attempt_final_verdict-OutOfTurns ports s noise))
    ]

-- However low the limit of unparseable answers is set from two on, it is never met: where no observer is
-- wired and every answer is text that the parser cannot read, the conversation goes through all its turns
-- and fails for want of turns.
pub run-OutOfTurns :
    (ports : Ports) (phase : Phase)
    → ports.observer ≡ none
    → ((n : ℕ) (messages : List Message) → IsNoise ports (ports.send n messages))
    → 2 ≤ phase.guardrails.max_unparseable_responses
    → phase.guardrails.turn ≤ phase.guardrails.max_turns
    → OutOfTurns (start ports phase).guardrails.max_turns (run ports phase)
unfolding run start guardrails_for_files
run-OutOfTurns ports phase w noise two h =
    let s = start ports phase in
    converse-OutOfTurns ports (suc s.guardrails.max_turns) phase s w noise two (omega arith)
      (omega arith)
