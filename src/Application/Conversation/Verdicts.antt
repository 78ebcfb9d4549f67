-- ===== src/Application/Conversation/Verdicts.antt =====
-- agent_conversation_service.py: what a verdict that `_run` takes rests on
use pr_auto_reviewer.Prelude.{
  ℕ, zero, suc, ◌+◌, ◌≤◌, ◌<◌, true, ltb, ◌≡◌, refl, sym, ◌∙◌, arith, ◌⊎◌, inl, inr, Bool-cases,
  subst, none, String, leb, if◌then◌else◌, ◌∷◌, ◌++◌, [],
}
use pr_auto_reviewer.Prelude.Result.{Result, ok, raise}
use pr_auto_reviewer.Prelude.Sets.{contains}
use pr_auto_reviewer.Application.Conversation.{
  TurnParseResult, Ports, Phase, LoopState, Message, Step, goes_on, accepts, aborts,
  coverage_targets,
}
use pr_auto_reviewer.Application.Conversation.Reads.{
  readable_changed_files, start, all_read, guardrails_for_files,
}
use pr_auto_reviewer.Application.Conversation.Turn.{take_turn}
use pr_auto_reviewer.Application.Conversation.Coverage.{
  Within, ReadsKnown, Explored, Explores, take_turn-Explores,
}
use pr_auto_reviewer.Application.Conversation.Loop.{
  Outcome, finished, failed, out_of_fuel, after_loop, after_turn, take_praise, praise_turn,
  take_final, attempt_final_verdict, converse, run, converse-goes_on, converse-ends,
}

module _ (ports : Ports) where
  -- What a verdict that is taken rests on: a tool was called, every readable coverage file was read
  -- or the turns were used up, and what counts as read is a readable changed file.
  abbrev pub RestsOnReads : Phase → Outcome → Type 0
  RestsOnReads phase (finished p s) =
      (0 < s.guardrails.tool_calls)
      × ((all_read (readable_changed_files ports (coverage_targets phase)) s.read_file_paths ≡ true)
          ⊎ (s.guardrails.max_turns ≤ s.guardrails.turn))
      × ReadsKnown ports phase s
  RestsOnReads phase (failed e s) = Unit
  RestsOnReads phase out_of_fuel = Unit

  take_praise-keeps :
      (s : LoopState) (r : Result String)
      → ((take_praise ports s r).guardrails ≡ s.guardrails)
        × ((take_praise ports s r).read_file_paths ≡ s.read_file_paths)
  take_praise-keeps s (raise e) = (refl, refl)
  take_praise-keeps s (ok content) = ground arith

  praise_turn-keeps :
      (s : LoopState)
      → ((praise_turn ports s).guardrails.tool_calls ≡ s.guardrails.tool_calls)
        × ((praise_turn ports s).read_file_paths ≡ s.read_file_paths)
  unfolding praise_turn
  praise_turn-keeps s = grind (arith, take_praise-keeps)

  praise_turn-RestsOnReads :
      (phase : Phase) (p : TurnParseResult) (s : LoopState)
      → Explored ports phase s
      → ReadsKnown ports phase s
      → RestsOnReads phase (finished p (praise_turn ports s))
  praise_turn-RestsOnReads phase p s e h =
      let files = readable_changed_files ports (coverage_targets phase) in
      let (c, r) = praise_turn-keeps s in
      (
        subst (λ n. 0 < n) (sym c) e.0,
        inl (subst (λ read. all_read files read ≡ true) (sym r) e.1),
        subst (λ read. Within ports read (readable_changed_files ports phase.changed_files)) (sym r)
            h,
      )

  take_final-RestsOnReads :
      (phase : Phase) (s : LoopState) (r : Result String)
      → ReadsKnown ports phase s
      → 0 < s.guardrails.tool_calls
      → s.guardrails.max_turns ≤ s.guardrails.turn
      → RestsOnReads phase (after_loop (take_final ports s r))
  take_final-RestsOnReads phase s (raise e) h c t = tt
  take_final-RestsOnReads phase s (ok content) h c t = ground arith

  attempt_final_verdict-RestsOnReads :
      (phase : Phase) (s : LoopState)
      → ReadsKnown ports phase s
      → s.guardrails.max_turns ≤ s.guardrails.turn
      → RestsOnReads phase (after_loop (attempt_final_verdict ports s))
  unfolding attempt_final_verdict
  attempt_final_verdict-RestsOnReads phase s h t =
      let s' = record s {
        messages = s.messages ++ Message.final_verdict ∷ [];
        calls = s.calls + 1;
      } in
      elim (Bool-cases (leb s.guardrails.tool_calls 0)) [
        | inl none_called ↦ ground arith
        | inr called ↦
            subst
              (λ b. RestsOnReads phase (
                after_loop
                  (if b then (none, s) else take_final ports s' (ports.send s.calls s'.messages))))
              (sym called)
              (take_final-RestsOnReads phase s' (ports.send s.calls s'.messages) h (ground arith) t)
      ]

  after_turn-RestsOnReads :
      (phase : Phase) (rest : LoopState → Outcome) (s : LoopState) (step : Step)
      → s.guardrails.exploration_required ≡ true
      → Explores ports phase s step
      → ((s' : LoopState)
          → s'.guardrails.exploration_required ≡ true
          → ReadsKnown ports phase s'
          → RestsOnReads phase (rest s'))
      → RestsOnReads phase (after_turn ports rest step)
  after_turn-RestsOnReads phase rest s (goes_on s') q (e, h) ih = ih s' (e ∙ q) h
  after_turn-RestsOnReads phase rest s (accepts p s') q (e, h) ih =
      praise_turn-RestsOnReads phase p s' (e q) h
  after_turn-RestsOnReads phase rest s (aborts err s') q h ih = tt

  converse-RestsOnReads :
      (fuel : ℕ) (phase : Phase) (s : LoopState)
      → s.guardrails.exploration_required ≡ true
      → ReadsKnown ports phase s
      → RestsOnReads phase (converse ports fuel phase s)
  unfolding converse
  converse-RestsOnReads zero phase s q h = tt
  converse-RestsOnReads (suc fuel) phase s q h =
      elim (Bool-cases (ltb s.guardrails.turn s.guardrails.max_turns)) [
        | inl t ↦ subst (RestsOnReads phase) (sym (converse-goes_on ports fuel phase s t)) (
            after_turn-RestsOnReads phase (converse ports fuel phase) s (take_turn ports phase s) q
              (take_turn-Explores ports phase s h) (converse-RestsOnReads fuel phase))
        | inr f ↦
            subst (RestsOnReads phase) (sym (converse-ends ports fuel phase s f))
              (attempt_final_verdict-RestsOnReads phase s h (ground (arith, f)))
      ]

-- Where exploration is required, a conversation that finishes with a verdict has called a tool, and has
-- read every readable coverage file unless its turns were used up; and only readable changed files
-- count as read.
pub run-RestsOnReads :
    (ports : Ports) (phase : Phase)
    → phase.guardrails.exploration_required ≡ true
    → RestsOnReads ports phase (run ports phase)
unfolding run start guardrails_for_files contains
run-RestsOnReads ports phase q =
    let s = start ports phase in
    converse-RestsOnReads ports (suc s.guardrails.max_turns) phase s q (λ f h. ground (arith, h))
