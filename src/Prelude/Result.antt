-- ===== src/Prelude/Result.antt =====
-- Calls that return or raise, and the exceptions that the modelled code raises.
use mathlib.Core.Path.{◌≡◌, refl}
use mathlib.Core.List.{List, [], ◌∷◌, foldl}
use pr_auto_reviewer.Prelude.Lists.{All}

pub data Error : Type 0 where
  value_error key_error runtime_error review_verdict : Error
  invalid_commit_sha invalid_pull_request_id invalid_comment_id : Error
  pull_request_not_found review_item_not_found : Error
  llm_unavailable max_turns_exceeded advisor_blocked review_budget_exhausted : Error
  empty_diff repository_fetch review_publish repository_corrupted unexpected : Error

pub data Result {ℓ} (A : Type ℓ) : Type ℓ where
  ok : A → Result A
  raise : Error → Result A

infixl 5 ◌>>=◌
abbrev pub ◌>>=◌ {ℓ κ} : {A : Type ℓ} {B : Type κ} → Result A → (A → Result B) → Result B
ok a >>= f = f a
raise e >>= f = raise e

-- A `for` loop whose body may raise.
unfoldable pub fold_m {ℓ κ} : {S : Type ℓ} {A : Type κ} → (S → A → Result S) → S → List A → Result S
fold_m step s [] = ok s
fold_m step s (x ∷ xs) = do s' ← step s x; fold_m step s' xs

-- A loop whose body returns `f s x` on the states that satisfy `P` never raises on the elements that
-- satisfy `Q`: it is the plain fold of `f`, and it keeps `P`.
pub fold_m-eq-foldl {ℓ κ μ ν} :
    {S : Type ℓ} {A : Type κ} (P : S → Type μ) (Q : A → Type ν) (step : S → A → Result S)
    (f : S → A → S)
    → ((s : S) (x : A) → P s → Q x → (step s x ≡ ok (f s x)) × P (f s x))
    → (s : S) (xs : List A) → P s
    → All Q xs
    → (fold_m step s xs ≡ ok (foldl f s xs)) × P (foldl f s xs)
unfolding fold_m
fold_m-eq-foldl P Q step f each s [] p q = (refl, p)
fold_m-eq-foldl P Q step f each s (x ∷ xs) p q =
    let (e, p') = each s x p q.0 in rw e (fold_m-eq-foldl P Q step f each (f s x) xs p' q.1)

pub ok-injective {ℓ} : {A : Type ℓ} (a b : A) → ◌≡◌ {A = Result A} (ok a) (ok b) → a ≡ b
ok-injective a b e = cc

-- what holds of a value that is returned
abbrev pub OnReturn {ℓ κ} : {A : Type ℓ} → (A → Type κ) → Result A → Type κ
OnReturn P (ok a) = P a
OnReturn P (raise e) = Unit

pub OnReturn-always {ℓ κ} :
    {A : Type ℓ} (P : A → Type κ) → ((a : A) → P a) → (r : Result A) → OnReturn P r
OnReturn-always P p (ok a) = p a
OnReturn-always P p (raise e) = tt

-- A call that keeps `P` on what it returns, and then one that takes `P` to `Q`.
pub OnReturn-bind {ℓ κ μ ν} :
    {A : Type ℓ} {B : Type κ} (P : A → Type μ) (Q : B → Type ν) (call : Result A) (f : A → Result B)
    → OnReturn P call
    → ((a : A) → P a → OnReturn Q (f a))
    → OnReturn Q (call >>= f)
OnReturn-bind P Q (ok a) f p each = each a p
OnReturn-bind P Q (raise e) f p each = tt

-- A call of which nothing is known, and then one that returns with `Q`.
pub OnReturn-rest {ℓ κ ν} :
    {A : Type ℓ} {B : Type κ} (Q : B → Type ν) (call : Result A) (f : A → Result B)
    → ((a : A) → OnReturn Q (f a))
    → OnReturn Q (call >>= f)
OnReturn-rest Q (ok a) f each = each a
OnReturn-rest Q (raise e) f each = tt

pub OnReturn-mono {ℓ μ ν} :
    {A : Type ℓ} (P : A → Type μ) (Q : A → Type ν)
    → ((a : A) → P a → Q a)
    → (r : Result A) → OnReturn P r
    → OnReturn Q r
OnReturn-mono P Q mono (ok a) p = mono a p
OnReturn-mono P Q mono (raise e) p = tt

pub OnReturn-intro {ℓ κ} :
    {A : Type ℓ} (P : A → Type κ) (r : Result A) → ((a : A) → r ≡ ok a → P a) → OnReturn P r
OnReturn-intro P (ok a) h = h a refl
OnReturn-intro P (raise e) h = tt
