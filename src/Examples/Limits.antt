-- ===== src/Examples/Limits.antt =====
-- The token budget, the rate limit and the retries at concrete inputs.
use pr_auto_reviewer.Prelude.{
  ◌+◌, ◌≤◌, ◌<◌, String, [], ◌∷◌, List, ◌⊎◌, none, some, ◌≡◌, refl, true, false, arith,
}
use pr_auto_reviewer.Prelude.Result.{ok, raise, value_error}
use pr_auto_reviewer.Domain.Review.{CodeReview}
use pr_auto_reviewer.Infrastructure.Limits.Budget.{
  TokenBudgetManager, consume_all, total_tokens, consume_all_lem,
}
use pr_auto_reviewer.Infrastructure.Limits.RateLimit.{
  RateLimitSnapshot, RateLimitTracker, absent, exhausted, wait, wait_lem, load, record_snapshot,
  record_snapshot_lem, save_cooldown,
}
use pr_auto_reviewer.Infrastructure.Limits.Retry.{
  IsBounded, IsLast, execute_with_correction, execute_with_correction_lem, slept, asked, back_off,
  finish, attempts,
}
use pr_auto_reviewer.Examples.Samples.{review1}

abbrev manager : TokenBudgetManager
manager = record { max_tokens = 3; consumed_tokens = 1 }

consume_all_lem_example :
    ((consume_all manager ("abcdefgh" ∷ "abc" ∷ [])
        ≡ ok (record manager { consumed_tokens = 1 + total_tokens ("abcdefgh" ∷ "abc" ∷ []) }))
      × (1 + total_tokens ("abcdefgh" ∷ "abc" ∷ []) ≤ 3))
    ⊎ ((consume_all manager ("abcdefgh" ∷ "abc" ∷ []) ≡ raise value_error)
        × (3 < 1 + total_tokens ("abcdefgh" ∷ "abc" ∷ [])))
consume_all_lem_example = consume_all_lem manager ("abcdefgh" ∷ "abc" ∷ []) (omega arith)

abbrev drained : RateLimitSnapshot
drained = record { limit = 60; remaining = 0; used = 60; reset = 1000; resource = "core" }

wait_lem_example : wait 940 drained 5 ≡ some 60
unfolding exhausted
wait_lem_example = wait_lem 940 drained 5

-- Two requests remain, fewer than the five that are asked for.
test_wait_low : wait 940 (record drained { remaining = 2 }) 5 ≡ none
unfolding wait
test_wait_low = refl

abbrev tracker : RateLimitTracker
tracker = record { current = drained; store = record { file = absent; last_write = 100 } }

record_snapshot_lem_example :
    let t' = record_snapshot true 200 tracker drained in
    (t'.current ≡ drained)
    × (((load t'.store ≡ ok drained)
          × (t'.store.last_write ≡ 200)
          × ((exhausted drained ≡ true) ⊎ (100 + save_cooldown ≤ 200)))
        ⊎ ((t'.store ≡ tracker.store) × (exhausted drained ≡ false) × (200 < 100 + save_cooldown)))
record_snapshot_lem_example = record_snapshot_lem 200 tracker drained

-- The model's reviews are always rejected.
abbrev reject : CodeReview → List String
reject review = "too vague" ∷ []

test_retries :
    execute_with_correction
      (λ n prompt. ok prompt)
      (λ raw. ok review1)
      reject
      (λ fs. "again")
      "review"
      3
    ≡ (asked "review" ∷ slept 1 ∷ asked "again" ∷ slept 2 ∷ asked "again" ∷ [], ok review1)
unfolding execute_with_correction attempts back_off finish
test_retries = refl

execute_with_correction_lem_example :
    IsBounded reject 3 1 4 (
      execute_with_correction
        (λ n prompt. ok prompt)
        (λ raw. ok review1)
        reject
        (λ fs. "again")
        "review"
        3)
    × IsLast
        (λ n prompt. ok prompt)
        (λ raw. ok review1)
        reject
        (λ fs. "again")
        "review"
        0
        (execute_with_correction
          (λ n prompt. ok prompt)
          (λ raw. ok review1)
          reject
          (λ fs. "again")
          "review"
          3)
execute_with_correction_lem_example =
    execute_with_correction_lem (λ n prompt. ok prompt) (λ raw. ok review1) reject (λ fs. "again")
      "review" 2
