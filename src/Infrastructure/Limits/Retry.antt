-- ===== src/Infrastructure/Limits/Retry.antt =====
-- infrastructure/llm/retry_orchestrator.py. The functions that it is given, and the builder of retry
-- prompts, are parameters; `execute_fn` takes the number of the attempt too, for what a model answers
-- may differ from call to call. The callback before an attempt is left out.
use native.Mathlib.Nat.{two-pow-succ, pow-le-pow_right, one-le-pow}
use pr_auto_reviewer.Prelude.{
  ℕ, zero, suc, ◌+◌, ◌^◌, ◌≤◌, String, ◌≡◌, refl, List, [], ◌∷◌, Option, none, some, if◌then◌else◌,
  arith, ◌⊎◌, inl, inr, subst,
}
use pr_auto_reviewer.Prelude.Logged.{Logged, ◌>>=◌, ◌>>◌, lift, effect, return}
use pr_auto_reviewer.Prelude.Result.{Result, ok, raise, llm_unavailable, OnReturn, OnReturn-mono}
use pr_auto_reviewer.Prelude.Text.{truthy}
use pr_auto_reviewer.Domain.Review.{CodeReview}

pub data Step : Type 0 where
  slept : ℕ → Step
  asked : String → Step

module _ (execute_fn : ℕ → String → Result String) (parse_fn : String → Result CodeReview)
    (diagnose_failures : CodeReview → List String) (build_correction_prompt : List String → String)
    (original_prompt : String) where
  -- `correction_prompt if correction_prompt else original_prompt`
  abbrev current_prompt : Option String → String
  current_prompt none = original_prompt
  current_prompt (some prompt) = if truthy prompt then prompt else original_prompt

  -- the wait before an attempt
  unfoldable pub back_off : (attempt : ℕ) → Logged Step (Unit {0})
  back_off zero = return tt
  back_off (suc attempt) = effect (slept (2 ^ attempt))

  -- after the loop
  unfoldable pub finish : Option CodeReview → Logged Step CodeReview
  finish none = lift (raise llm_unavailable)
  finish (some review) = return review

  -- `if not failures: break`, else `rest`
  abbrev unless_accepted :
      List String → CodeReview → Logged Step CodeReview → Logged Step CodeReview
  unless_accepted [] review rest = return review
  unless_accepted (f ∷ fs) review rest = rest

  -- the loop, with `retries` attempts to go
  unfoldable pub attempts :
      (retries attempt : ℕ) → Option CodeReview → Option String → Logged Step CodeReview
  unfolding back_off finish
  attempts zero attempt review correction_prompt = finish review
  attempts (suc retries) attempt review correction_prompt = do
    back_off attempt
    effect (asked (current_prompt correction_prompt))
    raw_text ← lift (execute_fn attempt (current_prompt correction_prompt))
    review' ← lift (parse_fn raw_text)
    unless_accepted (diagnose_failures review') review' (
        attempts retries (suc attempt) (some review')
          (some (build_correction_prompt (diagnose_failures review'))))

  unfoldable pub execute_with_correction : (max_retries : ℕ) → Logged Step CodeReview
  unfolding attempts
  execute_with_correction max_retries = attempts max_retries 0 none none

abbrev pub asked_count : List Step → ℕ
asked_count [] = 0
asked_count (slept n ∷ steps) = asked_count steps
asked_count (asked p ∷ steps) = suc (asked_count steps)

abbrev pub slept_total : List Step → ℕ
slept_total [] = 0
slept_total (slept n ∷ steps) = n + slept_total steps
slept_total (asked p ∷ steps) = slept_total steps

-- A call asks `n` times at most, and its sleep and `low` make `high` at most; what it returns has no
-- failures, or all `n` attempts were made.
unfoldable pub IsBounded :
    (CodeReview → List String) → (n low high : ℕ) → Logged Step CodeReview → Type 0
IsBounded diagnose_failures n low high call =
    (asked_count call.0 ≤ n)
    × (slept_total call.0 + low ≤ high)
    × OnReturn (λ review. (diagnose_failures review ≡ []) ⊎ (asked_count call.0 ≡ n)) call.1

module _ (diagnose_failures : CodeReview → List String) where
  abbrev Bounded : (n low high : ℕ) → Logged Step CodeReview → Type 0
  Bounded = IsBounded diagnose_failures

  Bounded-asked :
      (n low high : ℕ) (prompt : String) (call : Logged Step CodeReview)
      → Bounded n low high call
      → Bounded (suc n) low high (effect (asked prompt) >> call)
  unfolding IsBounded
  Bounded-asked n low high prompt (es, r) (a, s, o) = (
    omega (arith, a),
    s,
    OnReturn-mono (λ review. (diagnose_failures review ≡ []) ⊎ (asked_count es ≡ n)) _
        (λ review h. ground arith) r o,
  )

  Bounded-slept :
      (n low high w : ℕ) (call : Logged Step CodeReview)
      → Bounded n (w + low) high call
      → Bounded n low high (effect (slept w) >> call)
  unfolding IsBounded
  Bounded-slept n low high w (es, r) (a, s, o) = (a, omega (arith, s), o)

  Bounded-lift :
      {A : Type 0} (n low high : ℕ) (r : Result A) (rest : A → Logged Step CodeReview)
      → low ≤ high
      → ((a : A) → Bounded n low high (rest a))
      → Bounded n low high (lift r >>= rest)
  unfolding IsBounded
  Bounded-lift n low high (ok a) rest le each = each a
  Bounded-lift n low high (raise e) rest le each = (omega arith, omega (arith, le), tt)

module _ (execute_fn : ℕ → String → Result String) (parse_fn : String → Result CodeReview)
    (diagnose_failures : CodeReview → List String) (build_correction_prompt : List String → String)
    (original_prompt : String) where
  accepted_or :
      (fs : List String) (n low high : ℕ) (review : CodeReview) (rest : Logged Step CodeReview)
      → diagnose_failures review ≡ fs
      → low ≤ high
      → IsBounded diagnose_failures n low high rest
      → IsBounded diagnose_failures n low high (
          unless_accepted execute_fn parse_fn diagnose_failures build_correction_prompt
            original_prompt fs review rest)
  unfolding IsBounded
  accepted_or [] n low high review rest e le h = (omega arith, omega (arith, le), inl e)
  accepted_or (f ∷ fs) n low high review rest e le h = h

  abbrev run : (retries attempt : ℕ) → Option CodeReview → Option String → Logged Step CodeReview
  run = attempts execute_fn parse_fn diagnose_failures build_correction_prompt original_prompt

  -- one attempt after its wait, and the rest of the loop
  abbrev ask : (n attempt : ℕ) (prompt : String) → Logged Step CodeReview
  ask n attempt prompt =
      effect (asked prompt)
      >> (lift (execute_fn attempt prompt) >>= λ raw_text. lift (parse_fn raw_text) >>= λ review.
          unless_accepted execute_fn parse_fn diagnose_failures build_correction_prompt
            original_prompt (diagnose_failures review) review
            (run n (suc attempt) (some review)
              (some (build_correction_prompt (diagnose_failures review)))))

  ask-Bounded :
      (n low high attempt : ℕ) (prompt : String)
      → low ≤ high
      → ((review : CodeReview) (prompt : Option String)
          → IsBounded diagnose_failures n low high (run n (suc attempt) (some review) prompt))
      → IsBounded diagnose_failures (suc n) low high (ask n attempt prompt)
  ask-Bounded n low high attempt prompt le each =
      Bounded-asked diagnose_failures n low high prompt _ (
        Bounded-lift diagnose_failures n low high (execute_fn attempt prompt) _ le (λ raw.
          Bounded-lift diagnose_failures n low high (parse_fn raw) _ le (λ review.
            accepted_or (diagnose_failures review) n low high review _ refl le
              (each review (some (build_correction_prompt (diagnose_failures review)))))))

  finished : (low : ℕ) (review : CodeReview) → IsBounded diagnose_failures 0 low low (return review)
  unfolding IsBounded
  finished low review = (omega arith, omega arith, inr refl)

  attempts-Bounded :
      (n a : ℕ) (review : CodeReview) (prompt : Option String)
      → IsBounded diagnose_failures n (2 ^ a) (2 ^ (a + n)) (run n (suc a) (some review) prompt)
  unfolding attempts
  attempts-Bounded zero a review prompt =
      subst (λ k. IsBounded diagnose_failures 0 (2 ^ a) (2 ^ k) (return review)) (omega arith)
        (finished (2 ^ a) review)
  attempts-Bounded (suc n) a review prompt =
      Bounded-slept diagnose_failures (suc n) (2 ^ a) (2 ^ (a + suc n)) (2 ^ a) _ (
        ask-Bounded n (2 ^ a + 2 ^ a) (2 ^ (a + suc n)) (suc a) _
          (subst (λ k. k ≤ 2 ^ (a + suc n)) (two-pow-succ a)
            (pow-le-pow_right (omega arith) (omega arith)))
          (λ review' prompt'.
            subst
              (λ k.
                IsBounded diagnose_failures n k (2 ^ (a + suc n))
                  (run n (suc (suc a)) (some review') prompt'))
              (two-pow-succ a)
              (subst
                (λ k.
                  IsBounded diagnose_failures n (2 ^ suc a) (2 ^ k)
                    (run n (suc (suc a)) (some review') prompt'))
                (omega arith) (attempts-Bounded n (suc a) review' prompt'))))

  -- what attempt `i` made of the model's answer
  abbrev IsAnswer : (i : ℕ) → CodeReview → Type 0
  IsAnswer i review =
      (prompt : String) × (raw_text : String) × (execute_fn i prompt ≡ ok raw_text)
      × (parse_fn raw_text ≡ ok review)

  -- A call that starts with attempt `attempt` returns what its last attempt answered.
  unfoldable pub IsLast : (attempt : ℕ) → Logged Step CodeReview → Type 0
  IsLast attempt call =
      OnReturn (λ review. (i : ℕ) × (attempt + asked_count call.0 ≡ suc i) × IsAnswer i review)
        call.1

  asked-IsLast :
      (attempt : ℕ) (prompt : String) (call : Logged Step CodeReview)
      → IsLast (suc attempt) call
      → IsLast attempt (effect (asked prompt) >> call)
  unfolding IsLast
  asked-IsLast attempt prompt (es, r) h =
      OnReturn-mono (λ review. (i : ℕ) × (suc attempt + asked_count es ≡ suc i) × IsAnswer i review)
        _ (λ review (i, e, a). (i, omega (arith, e), a)) r h

  lift-IsLast :
      {A : Type 0} (attempt : ℕ) (r : Result A) (rest : A → Logged Step CodeReview)
      → ((a : A) → r ≡ ok a → IsLast attempt (rest a))
      → IsLast attempt (lift r >>= rest)
  unfolding IsLast
  lift-IsLast attempt (ok a) rest h = h a refl
  lift-IsLast attempt (raise e) rest h = tt

  answered-IsLast :
      (attempt : ℕ) (review : CodeReview)
      → IsAnswer attempt review
      → IsLast (suc attempt) (return review)
  unfolding IsLast
  answered-IsLast attempt review a = (attempt, omega arith, a)

  accepted-IsLast :
      (fs : List String) (attempt : ℕ) (review : CodeReview) (rest : Logged Step CodeReview)
      → IsAnswer attempt review
      → IsLast (suc attempt) rest
      → IsLast (suc attempt) (
          unless_accepted execute_fn parse_fn diagnose_failures build_correction_prompt
            original_prompt fs review rest)
  accepted-IsLast [] attempt review rest a h = answered-IsLast attempt review a
  accepted-IsLast (f ∷ fs) attempt review rest a h = h

  ask-IsLast :
      (n attempt : ℕ) (prompt : String)
      → ((review : CodeReview) (prompt : Option String)
          → IsAnswer attempt review
          → IsLast (suc attempt) (run n (suc attempt) (some review) prompt))
      → IsLast attempt (ask n attempt prompt)
  ask-IsLast n attempt prompt each = asked-IsLast attempt prompt _ (
      lift-IsLast (suc attempt) (execute_fn attempt prompt) _ (λ raw e.
        lift-IsLast (suc attempt) (parse_fn raw) _ (λ review p.
          accepted-IsLast (diagnose_failures review) attempt review _ (prompt, raw, e, p)
            (each review (some (build_correction_prompt (diagnose_failures review)))
              (prompt, raw, e, p)))))

  slept-IsLast :
      (attempt w : ℕ) (call : Logged Step CodeReview)
      → IsLast attempt call
      → IsLast attempt (effect (slept w) >> call)
  unfolding IsLast
  slept-IsLast attempt w (es, r) h = h

  attempts-IsLast :
      (n a : ℕ) (review : CodeReview) (prompt : Option String)
      → IsAnswer a review
      → IsLast (suc a) (run n (suc a) (some review) prompt)
  unfolding attempts
  attempts-IsLast zero a review prompt h = answered-IsLast a review h
  attempts-IsLast (suc n) a review prompt h =
      slept-IsLast (suc a) (2 ^ a) _ (
        ask-IsLast n (suc a) _ (λ review' prompt' h'. attempts-IsLast n (suc a) review' prompt' h'))

  -- With `suc retries` attempts allowed, the model is asked that often at most, and the waits between
  -- the attempts sum up to less than 2 ^ retries seconds. A review that is returned is what was parsed
  -- from the answer to the last attempt made, and it has no failures, or all attempts allowed were
  -- made.
  pub execute_with_correction_lem :
      (retries : ℕ)
      → let call =
          execute_with_correction execute_fn parse_fn diagnose_failures build_correction_prompt
            original_prompt
            (suc retries) in
        IsBounded diagnose_failures (suc retries) 1 (2 ^ retries) call × IsLast 0 call
  unfolding execute_with_correction
  execute_with_correction_lem retries = (
    ask-Bounded retries 1 (2 ^ retries) 0 original_prompt (one-le-pow retries 2 (omega arith))
        (λ review prompt.
          subst
            (λ k.
              IsBounded diagnose_failures retries 1 (2 ^ k) (run retries 1 (some review) prompt))
            (omega arith) (attempts-Bounded retries 0 review prompt)),
    ask-IsLast retries 0 original_prompt (attempts-IsLast retries 0),
  )
