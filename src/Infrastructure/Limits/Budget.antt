-- ===== src/Infrastructure/Limits/Budget.antt =====
-- infrastructure/fragments/token_budget_manager.py: the manager is its two fields.
use Prim.Native.String.{count}
use pr_auto_reviewer.Prelude.{
  ℕ, ◌+◌, ◌-◌, ◌/◌, ◌≤◌, String, Bool, ◌≡◌, refl, List, [], ◌∷◌, leb, ltb, if◌then◌else◌, arith,
  ◌⊎◌, inl, inr, ◌<◌, Bool-cases, ap,
}
use pr_auto_reviewer.Prelude.Result.{Result, ok, raise, value_error, ◌>>=◌, fold_m}

pub record TokenBudgetManager : Type 0 where
  pub max_tokens : ℕ
  pub consumed_tokens : ℕ

unfoldable pub new_manager : ℕ → TokenBudgetManager
new_manager max_tokens = record { max_tokens = max_tokens; consumed_tokens = 0 }

unfoldable pub estimate_tokens : String → ℕ
estimate_tokens text_ = count text_ / 4

unfoldable pub fits_budget : TokenBudgetManager → String → Bool
fits_budget m text_ = leb (m.consumed_tokens + estimate_tokens text_) m.max_tokens

unfoldable pub remaining : TokenBudgetManager → ℕ
remaining m = m.max_tokens - m.consumed_tokens

-- the manager afterwards, and the tokens consumed
unfoldable pub consume : TokenBudgetManager → String → Result (TokenBudgetManager × ℕ)
consume m text_ =
    let tokens = estimate_tokens text_ in
    if ltb m.max_tokens (m.consumed_tokens + tokens)
    then raise value_error
    else ok (record m { consumed_tokens = m.consumed_tokens + tokens }, tokens)

unfoldable pub reset : TokenBudgetManager → TokenBudgetManager
reset m = record m { consumed_tokens = 0 }

-- any texts in turn
unfoldable pub consume_all : TokenBudgetManager → List String → Result TokenBudgetManager
unfolding fold_m
consume_all = fold_m (λ m text_. do (m', tokens) ← consume m text_; ok m')

abbrev pub total_tokens : List String → ℕ
total_tokens [] = 0
total_tokens (t ∷ ts) = estimate_tokens t + total_tokens ts

-- Texts are consumed in turn exactly if all of them together fit the budget that is left; then the
-- consumed tokens grow by their sum and stay within the limit. Otherwise a ValueError is raised.
pub consume_all_lem :
    (m : TokenBudgetManager) (ts : List String)
    → m.consumed_tokens ≤ m.max_tokens
    → ((consume_all m ts ≡ ok (record m { consumed_tokens = m.consumed_tokens + total_tokens ts }))
        × (m.consumed_tokens + total_tokens ts ≤ m.max_tokens))
      ⊎ ((consume_all m ts ≡ raise value_error)
          × (m.max_tokens < m.consumed_tokens + total_tokens ts))
unfolding consume_all consume
consume_all_lem m [] h =
    inl (ap (λ n. ok (record m { consumed_tokens = n })) (omega arith), omega (arith, h))
consume_all_lem m (t ∷ ts) h =
    elim (Bool-cases (ltb m.max_tokens (m.consumed_tokens + estimate_tokens t))) [
      | inl over ↦ inr (rw over refl, ground arith)
      | inr fits ↦
          rw fits
            (elim (consume_all_lem
              (record m { consumed_tokens = m.consumed_tokens + estimate_tokens t }) ts
              (ground arith)) [
                | inl (e, le) ↦ inl (
                  rw e (ap (λ n. ok (record m { consumed_tokens = n })) (omega arith)),
                  omega (arith, le),
                )
                | inr (e, lt) ↦ inr (e, omega (arith, lt))
              ])
    ]
