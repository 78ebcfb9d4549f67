-- ===== src/Prelude/Words/Decimals.antt =====
-- Decimal numbers: what `str(n)` spells is read back, and a number after a slash is found again.
use pr_auto_reviewer.Prelude.{
  ℕ, zero, suc, ◌+◌, ◌*◌, ◌-◌, ◌/◌, ◌%◌, ◌≤◌, ◌<◌, String, Bool, false, ◌≡◌, refl, sym, ap, ◌∙◌,
  ltb, nat_eq, arith, Bool-cases, inl, inr, ◌||◌, Option, none, some, if◌then◌else◌,
}
use Prim.Native.Char.{Char, code}
use pr_auto_reviewer.Prelude.Words.{append, digit_text, decimal, show}

-- the number that the digits spell after `n`
read : ℕ → String → ℕ
read n String.[] = n
read n (String.◌∷◌ c s) = read (10 * n + (code c - b'0')) s

-- a digit is one character, the one at its place behind "0"
digit_text-code :
    (d : ℕ) → d < 10 → (c : Char) × (digit_text d ≡ String.◌∷◌ c "") × (code c ≡ b'0' + d)
unfolding digit_text
digit_text-code zero h = (_, refl, refl)
digit_text-code (suc zero) h = (_, refl, refl)
digit_text-code (suc (suc zero)) h = (_, refl, refl)
digit_text-code (suc (suc (suc zero))) h = (_, refl, refl)
digit_text-code (suc (suc (suc (suc zero)))) h = (_, refl, refl)
digit_text-code (suc (suc (suc (suc (suc zero))))) h = (_, refl, refl)
digit_text-code (suc (suc (suc (suc (suc (suc zero)))))) h = (_, refl, refl)
digit_text-code (suc (suc (suc (suc (suc (suc (suc zero))))))) h = (_, refl, refl)
digit_text-code (suc (suc (suc (suc (suc (suc (suc (suc zero)))))))) h = (_, refl, refl)
digit_text-code (suc (suc (suc (suc (suc (suc (suc (suc (suc zero))))))))) h = (_, refl, refl)
digit_text-code (suc (suc (suc (suc (suc (suc (suc (suc (suc (suc d)))))))))) h =
    absurd (omega (arith, h))

read-digit_text :
    (a d : ℕ) (rest : String)
    → d < 10
    → read a (append (digit_text d) rest) ≡ read (10 * a + d) rest
unfolding append read
read-digit_text a d rest h =
    let (c, e, k) = digit_text-code d h in
    ap (λ t. read a (append t rest)) e ∙ ap (λ n. read n rest) (omega (arith, k))

read-decimal : (fuel n : ℕ) (rest : String) → n ≤ fuel → read 0 (decimal fuel n rest) ≡ read n rest
unfolding decimal
read-decimal zero n rest h =
    read-digit_text 0 n rest (omega (arith, h)) ∙ ap (λ k. read k rest) (omega arith)
read-decimal (suc fuel) n rest h = elim (Bool-cases (ltb n 10)) [
  | inl small ↦
      rw small
        (read-digit_text 0 n rest (ground (arith, small)) ∙ ap (λ k. read k rest) (omega arith))
  | inr large ↦ rw large (
      read-decimal fuel (n / 10) _ (ground (arith, large, h))
      ∙ read-digit_text (n / 10) (n % 10) rest (omega arith)
      ∙ ap (λ k. read k rest) (omega arith))
]

show-injective : (n m : ℕ) → show n ≡ show m → n ≡ m
unfolding show read
show-injective n m h =
    sym (read-decimal n n "" (omega arith)) ∙ ap (read 0) h ∙ read-decimal m m "" (omega arith)

-- No character of the text is a slash.
has_slash : String → Bool
has_slash String.[] = false
has_slash (String.◌∷◌ c s) = nat_eq (code c) b'/' || has_slash s

has_slash-append : (s t : String) → has_slash (append s t) ≡ has_slash s || has_slash t
unfolding has_slash append
has_slash-append String.[] t = refl
has_slash-append (String.◌∷◌ c s) t = ground (arith, has_slash-append s t)

has_slash-digit_text : (d : ℕ) → d < 10 → has_slash (digit_text d) ≡ false
unfolding has_slash
has_slash-digit_text d h =
    let (c, e, k) = digit_text-code d h in ap has_slash e ∙ ground (arith, k, h)

has_slash-decimal :
    (fuel n : ℕ) (rest : String)
    → n ≤ fuel
    → has_slash rest ≡ false
    → has_slash (decimal fuel n rest) ≡ false
unfolding decimal
has_slash-decimal zero n rest h r =
    has_slash-append (digit_text n) rest
    ∙ ground (arith, r, has_slash-digit_text n (omega (arith, h)))
has_slash-decimal (suc fuel) n rest h r = elim (Bool-cases (ltb n 10)) [
  | inl small ↦ rw small (
      has_slash-append (digit_text n) rest
      ∙ ground (arith, r, has_slash-digit_text n (ground (arith, small))))
  | inr large ↦ rw large (
      has_slash-decimal fuel (n / 10) _ (ground (arith, large, h)) (
        has_slash-append (digit_text (n % 10)) rest
        ∙ ground (arith, r, has_slash-digit_text (n % 10) (omega arith))))
]

has_slash-show : (n : ℕ) → has_slash (show n) ≡ false
unfolding show has_slash
has_slash-show n = has_slash-decimal n n "" (omega arith) refl

-- the parts before and after the last slash
cut : String → Option (String × String)
cut String.[] = none
cut (String.◌∷◌ c s) = at_slash c s (cut s)
  where
    at_slash : Char → String → Option (String × String) → Option (String × String)
    at_slash c s (some (before, after)) = some (String.◌∷◌ c before, after)
    at_slash c s none = if nat_eq (code c) b'/' then some ("", s) else none

cut-none : (s : String) → has_slash s ≡ false → cut s ≡ none
unfolding cut has_slash
cut-none String.[] h = refl
cut-none (String.◌∷◌ c s) h = ground (arith, h, cut-none s)

cut-append :
    (before after : String)
    → has_slash after ≡ false
    → cut (append before (append "/" after)) ≡ some (before, after)
unfolding cut append
cut-append String.[] after h = rw (cut-none after h) refl
cut-append (String.◌∷◌ c before) after h = rw (cut-append before after h) refl

parts : Option (String × String) → String × String
parts none = ("", "")
parts (some p) = p

-- A text followed by a slash and a number tells both.
pub numbered-injective :
    (a b : String) (n m : ℕ)
    → append a (append "/" (show n)) ≡ append b (append "/" (show m))
    → (a ≡ b) × (n ≡ m)
unfolding parts
numbered-injective a b n m h =
    let same =
      sym (cut-append a (show n) (has_slash-show n))
      ∙ ap cut h
      ∙ cut-append b (show m) (has_slash-show m) in
    (ap (λ o. (parts o).0) same, show-injective n m (ap (λ o. (parts o).1) same))
