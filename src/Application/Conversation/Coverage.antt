-- ===== src/Application/Conversation/Coverage.antt =====
-- agent_conversation_service.py: what the model has read when a verdict is taken
use pr_auto_reviewer.Prelude.{
  ◌+◌, ◌<◌, String, true, false, List, [], ◌∷◌, Option, none, some, not, if◌then◌else◌, ◌≡◌, refl,
  ◌∙◌, arith, eq_iff,
}
use pr_auto_reviewer.Prelude.Sets.{contains, add}
use pr_auto_reviewer.Prelude.Result.{Result, ok, raise}
use pr_auto_reviewer.Prelude.Text.{truthy}
use pr_auto_reviewer.Domain.Guardrails.{
  advance_turn, mark_consecutive_success, record_empty_response, record_unparseable_response,
  record_tool_call, judge_verdict,
}
use pr_auto_reviewer.Application.Conversation.{
  TurnKind, tool_call, verdict, unparseable, ToolCall, ToolResult, TurnParseResult, Ports, Phase,
  LoopState, list_or, Step, goes_on, accepts, aborts, and_then, say, coverage_targets, Message,
}
use pr_auto_reviewer.Application.Conversation.Reads.{
  readable_changed_files, record_read_file, coverage_complete, all_read, matching_file,
  normalize_read_file_path, record_path, add_path, matching_relative,
}
use pr_auto_reviewer.Application.Conversation.Turn.{
  on_empty, on_unparseable, on_observer, on_kind, on_content, on_tool_call, on_repeated,
  is_repeated, on_verdict, nudge, run_tool, on_answer, take_turn,
}

module _ (ports : Ports) where
  -- Every path of the first list is in the second.
  abbrev pub Within : List String → List String → Type 0
  Within fs gs = (f : String) → contains f fs ≡ true → contains f gs ≡ true

  matching_file-contains :
      (normalized : String) (fs : List String) (f : String)
      → matching_file ports normalized fs ≡ some f
      → contains f fs ≡ true
  unfolding matching_file contains
  matching_file-contains normalized [] f h = ground (arith, h)
  matching_file-contains normalized (g ∷ gs) f h =
      ground (arith, eq_iff g f, matching_file-contains normalized gs f)

  matching_relative-contains :
      (files : List String) (o : Option String) (f : String)
      → matching_relative ports files o ≡ some f
      → contains f files ≡ true
  matching_relative-contains files none f h = ground (arith, h)
  matching_relative-contains files (some c) f h =
      matching_file-contains (ports.as_posix c) files f h

  add_path-Within :
      (o : Option String) (files paths : List String)
      → ((f : String) → o ≡ some f → contains f files ≡ true)
      → Within paths files
      → Within (add_path ports o paths) files
  unfolding add
  add_path-Within none files paths ho h f hf = h f hf
  add_path-Within (some p) files paths ho h f hf = ground (arith, ho p refl, h f, eq_iff p f)

  record_path-Within :
      (o : Option String) (files paths : List String)
      → Within paths files
      → Within (record_path ports o files paths) files
  unfolding normalize_read_file_path
  record_path-Within none files paths h = h
  record_path-Within (some raw) files paths h =
      add_path-Within (normalize_read_file_path ports raw files) files paths
        (matching_relative-contains files (ports.relative raw)) h

  record_read_file-Within :
      (result : ToolResult) (files paths : List String)
      → Within paths files
      → Within (record_read_file ports result files paths) files
  unfolding record_read_file
  record_read_file-Within result files paths h f =
      ground (arith, h f, record_path-Within result.path files paths h f)

  -- What a turn keeps: whether exploration is required, and that only readable changed files count as
  -- read; an accepted verdict was explored.
  abbrev pub ReadsKnown : Phase → LoopState → Type 0
  ReadsKnown phase s = Within s.read_file_paths (readable_changed_files ports phase.changed_files)

  abbrev pub Explored : Phase → LoopState → Type 0
  Explored phase s =
      (0 < s.guardrails.tool_calls)
      × (all_read (readable_changed_files ports (coverage_targets phase)) s.read_file_paths ≡ true)

  abbrev pub Explores : Phase → LoopState → Step → Type 0
  Explores phase s (goes_on s') =
      (s'.guardrails.exploration_required ≡ s.guardrails.exploration_required) × ReadsKnown phase s'
  Explores phase s (accepts p s') =
      (s.guardrails.exploration_required ≡ true → Explored phase s') × ReadsKnown phase s'
  Explores phase s (aborts e s') = Unit

  on_empty-Explores :
      (phase : Phase) (s : LoopState) → ReadsKnown phase s → Explores phase s (on_empty s)
  unfolding on_empty record_empty_response
  on_empty-Explores phase s h = ground arith

  on_observer-Explores :
      (phase : Phase) (content : String) (kind : TurnKind) (s : LoopState)
      → ReadsKnown phase s
      → Explores phase s (on_observer ports phase content kind s)
  unfolding on_observer
  on_observer-Explores phase content kind s h = ground arith

  on_unparseable-Explores :
      (phase : Phase) (s : LoopState) → ReadsKnown phase s → Explores phase s (on_unparseable s)
  unfolding on_unparseable record_unparseable_response
  on_unparseable-Explores phase s h = ground arith

  on_verdict-Explores :
      (phase : Phase) (parsed : TurnParseResult) (s : LoopState)
      → ReadsKnown phase s
      → Explores phase s (on_verdict ports phase parsed s)
  unfolding on_verdict judge_verdict coverage_complete
  on_verdict-Explores phase parsed s h = ground arith

  run_tool-ReadsKnown :
      (phase : Phase) (call : ToolCall) (s : LoopState)
      → ReadsKnown phase s
      → ReadsKnown phase (run_tool ports phase call s)
  unfolding run_tool
  run_tool-ReadsKnown phase call s h f = ground (
    arith,
    h f,
    record_read_file-Within (ports.execute_tool s.calls call)
        (readable_changed_files ports phase.changed_files) s.read_file_paths h f,
  )

  nudge-ReadsKnown :
      (phase : Phase) (s : LoopState) → ReadsKnown phase s → ReadsKnown phase (nudge s)
  unfolding nudge
  nudge-ReadsKnown phase s h f = ground (arith, h f)

  nudge-required :
      (s : LoopState)
      → (nudge s).guardrails.exploration_required ≡ s.guardrails.exploration_required
  unfolding nudge
  nudge-required s = ground arith

  run_tool-required :
      (phase : Phase) (call : ToolCall) (s : LoopState)
      → (run_tool ports phase call s).guardrails.exploration_required
        ≡ s.guardrails.exploration_required
  unfolding run_tool record_tool_call
  run_tool-required phase call s = ground arith

  on_repeated-Explores :
      (phase : Phase) (s : LoopState) → ReadsKnown phase s → Explores phase s (on_repeated s)
  unfolding on_repeated
  on_repeated-Explores phase s h = ground arith

  on_tool_call-Explores :
      (phase : Phase) (call : ToolCall) (s : LoopState)
      → ReadsKnown phase s
      → Explores phase s (on_tool_call ports phase call s)
  unfolding on_tool_call
  on_tool_call-Explores phase call s h =
      let s' = run_tool ports phase call s in
      elim (is_repeated phase call s)
        as (λ b. Explores phase s (if b then on_repeated s else goes_on (nudge s'))) [
          | true ↦ on_repeated-Explores phase s h
          | false ↦ (
            nudge-required s' ∙ run_tool-required phase call s,
            nudge-ReadsKnown phase s' (run_tool-ReadsKnown phase call s h),
          )
        ]

  on_kind-Explores :
      (phase : Phase) (content : String) (parsed : TurnParseResult) (kind : TurnKind)
      (call : Option ToolCall) (s : LoopState)
      → ReadsKnown phase s
      → Explores phase s (on_kind ports phase content parsed kind call s)
  unfolding on_kind
  on_kind-Explores phase content parsed unparseable call s h = on_unparseable-Explores phase s h
  on_kind-Explores phase content parsed tool_call none s h = (refl, h)
  on_kind-Explores phase content parsed tool_call (some call) s h =
      on_tool_call-Explores phase call (say s (Message.assistant content)) h
  on_kind-Explores phase content parsed verdict call s h =
      on_verdict-Explores phase parsed (say s (Message.assistant content)) h

  Explores-from :
      (phase : Phase) (s s' : LoopState) (step : Step)
      → s'.guardrails.exploration_required ≡ s.guardrails.exploration_required
      → Explores phase s' step
      → Explores phase s step
  Explores-from phase s s' (goes_on t) e (e', h) = (e' ∙ e, h)
  Explores-from phase s s' (accepts p t) e (k, h) = ((λ q. k (e ∙ q)), h)
  Explores-from phase s s' (aborts err t) e h = tt

  and_then-Explores :
      (phase : Phase) (s : LoopState) (step : Step) (k : LoopState → Step)
      → Explores phase s step
      → ((s' : LoopState) → ReadsKnown phase s' → Explores phase s' (k s'))
      → Explores phase s (and_then step k)
  and_then-Explores phase s (goes_on s') k (e, h) hk = Explores-from phase s s' (k s') e (hk s' h)
  and_then-Explores phase s (accepts p s') k h hk = h
  and_then-Explores phase s (aborts err s') k h hk = tt

  on_content-Explores :
      (phase : Phase) (content : String) (s : LoopState)
      → ReadsKnown phase s
      → Explores phase s (on_content ports phase content s)
  unfolding on_content mark_consecutive_success
  on_content-Explores phase content s h =
      let parsed = ports.parse content in
      let s' = record s {
        guardrails = mark_consecutive_success s.guardrails;
        accumulated_praise = list_or parsed.praise s.accumulated_praise;
        accumulated_suggestions = list_or parsed.suggestions s.accumulated_suggestions;
      } in
      and_then-Explores phase s (on_observer ports phase content parsed.kind s')
        (on_kind ports phase content parsed parsed.kind parsed.call)
        (on_observer-Explores phase content parsed.kind s' h)
        (on_kind-Explores phase content parsed parsed.kind parsed.call)

  on_answer-Explores :
      (phase : Phase) (s : LoopState) (r : Result String)
      → ReadsKnown phase s
      → Explores phase s (on_answer ports phase s r)
  unfolding on_answer advance_turn
  on_answer-Explores phase s (raise e) h = tt
  on_answer-Explores phase s (ok content) h =
      let s' = record s { guardrails = advance_turn s.guardrails; calls = s.calls + 1 } in
      elim (truthy content)
        as (λ b.
          Explores phase s (if not b then on_empty s' else on_content ports phase content s')) [
            | true ↦ on_content-Explores phase content s' h
            | false ↦ on_empty-Explores phase s' h
          ]

  pub take_turn-Explores :
      (phase : Phase) (s : LoopState)
      → ReadsKnown phase s
      → Explores phase s (take_turn ports phase s)
  unfolding take_turn
  take_turn-Explores phase s h = on_answer-Explores phase s (ports.send s.calls s.messages) h
