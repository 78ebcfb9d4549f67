-- ===== src/Prelude/Logged.antt =====
-- Calls that act on the outside: what they did so far, and then a value or an exception. What was done
-- before an exception stays done.
use mathlib.Core.List.{List, [], ◌∷◌, ◌++◌}
use pr_auto_reviewer.Prelude.Result.{Result, ok, raise, OnReturn}

abbrev pub Logged {ℓ κ} : Type ℓ → Type κ → Type (ℓ ⊔ κ)
Logged E A = List E × Result A

-- the rest of the effects of a call
abbrev after {ℓ κ} : {E : Type ℓ} {A : Type κ} → List E → Logged E A → Logged E A
after es (es', r) = (es ++ es', r)

infixl 5 ◌>>=◌
abbrev pub ◌>>=◌ {ℓ κ μ} :
    {E : Type ℓ} {A : Type κ} {B : Type μ} → Logged E A → (A → Logged E B) → Logged E B
(es, ok a) >>= f = after es (f a)
(es, raise e) >>= f = (es, raise e)

-- `return a`
abbrev pub return {ℓ κ} : {E : Type ℓ} {A : Type κ} → A → Logged E A
return a = ([], ok a)

-- a call that does nothing on the outside
abbrev pub lift {ℓ κ} : {E : Type ℓ} {A : Type κ} → Result A → Logged E A
lift r = ([], r)

-- one effect
abbrev pub effect {ℓ} : {E : Type ℓ} → E → Logged E (Unit {0})
effect e = (e ∷ [], ok tt)

infixl 5 ◌>>◌
abbrev pub ◌>>◌ {ℓ κ μ} :
    {E : Type ℓ} {A : Type κ} {B : Type μ} → Logged E A → Logged E B → Logged E B
call >> rest = call >>= λ _. rest

-- A call that keeps `P` on what it returns, and then one that takes `P` to `Q`.
pub OnReturn->>= {ℓ κ μ ν ξ} :
    {E : Type ℓ} {A : Type κ} {B : Type μ} (P : A → Type ν) (Q : B → Type ξ) (call : Logged E A)
    (f : A → Logged E B)
    → OnReturn P call.1
    → ((a : A) → P a → OnReturn Q (f a).1)
    → OnReturn Q (call >>= f).1
OnReturn->>= P Q (es, ok a) f p each = each a p
OnReturn->>= P Q (es, raise e) f p each = tt

-- A call of which nothing is known, and then one that returns with `Q`.
pub OnReturn->> {ℓ κ μ ξ} :
    {E : Type ℓ} {A : Type κ} {B : Type μ} (Q : B → Type ξ) (call : Logged E A) (f : A → Logged E B)
    → ((a : A) → OnReturn Q (f a).1)
    → OnReturn Q (call >>= f).1
OnReturn->> Q (es, ok a) f each = each a
OnReturn->> Q (es, raise e) f each = tt
