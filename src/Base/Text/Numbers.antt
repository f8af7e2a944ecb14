-- ===== src/Base/Text/Numbers.antt =====
-- Decimal numbers as text: what `strconv.Itoa` prints, `strconv.Atoi` reads, and the functions of
-- `strings` leave whole.
use Prim.Native.Nat.{ℕ, zero, suc, ◌+◌, ◌*◌, ◌/◌, ◌%◌, ◌^◌, ◌<◌}
use Prim.Native.Char.{code}
use Prim.Native.String
use Prim.Native.String.{String, char_at}
use mathlib.Core.Path.{◌≡◌, refl, ap, sym, ◌∙◌}
use mathlib.Core.Bool.{Bool, true, false, ◌&&◌, ◌||◌}
use mathlib.Core.Logic.{inl, inr}
use mathlib.Core.Option.{none, some}
use native.Mathlib.Omega.{arith}
use native.Mathlib.Nat.{pow-suc}
use text.Mathlib.TextLemmas.{nil-append, cons-append}
use kknode.Base.Tests.{ltb, leb, ◌==◌, Bool-cases}
use kknode.Base.Int.{pos}
use kknode.Base.Text.{
  is_space, trim_left, keep_before, trim_right, trim_space, cut, digit, digits, itoa, digits_value,
  unsigned_value, below, atoi,
}

-- Every code point of the text passes a test.
abbrev pub AllChars : (ℕ → Bool) → String → Type 0
AllChars p String.[] = Unit {0}
AllChars p (String.◌∷◌ c s) = (p (code c) ≡ true) × AllChars p s

pub AllChars-append :
    (p : ℕ → Bool) (s t : String) → AllChars p s → AllChars p t → AllChars p (String.◌++◌ s t)
AllChars-append p String.[] t h k = rw (nil-append t) k
AllChars-append p (String.◌∷◌ c s) t h k = rw (cons-append c s t) (h.0, AllChars-append p s t h.1 k)

abbrev pub is_digit : ℕ → Bool
is_digit n = leb b'0' n && leb n b'9'

abbrev pub is_plain : ℕ → Bool
is_plain n = is_digit n || n == b'-'

plain_not_space : (n : ℕ) → is_plain n ≡ true → is_space n ≡ false
unfolding is_space
plain_not_space n h = ground arith

trim_left_plain : (s : String) → AllChars is_plain s → trim_left s ≡ s
unfolding trim_left
trim_left_plain String.[] h = refl
trim_left_plain (String.◌∷◌ c s) h = rw (plain_not_space (code c) h.0)

trim_right_plain : (s : String) → AllChars is_plain s → trim_right s ≡ s
unfolding trim_right keep_before
trim_right_plain String.[] h = refl
trim_right_plain (String.◌∷◌ c String.[]) h = rw (plain_not_space (code c) h.0)
trim_right_plain (String.◌∷◌ c (String.◌∷◌ d s)) h = rw (trim_right_plain (String.◌∷◌ d s) h.1)

pub trim_space_plain : (s : String) → AllChars is_plain s → trim_space s ≡ s
unfolding trim_space
trim_space_plain s h = rw (trim_left_plain s h) (trim_right_plain s h)

digit_code : (d : ℕ) → d < 10 → code (digit d) ≡ b'0' + d
unfolding digit
digit_code zero h = refl
digit_code (suc zero) h = refl
digit_code (suc (suc zero)) h = refl
digit_code (suc (suc (suc zero))) h = refl
digit_code (suc (suc (suc (suc zero)))) h = refl
digit_code (suc (suc (suc (suc (suc zero))))) h = refl
digit_code (suc (suc (suc (suc (suc (suc zero)))))) h = refl
digit_code (suc (suc (suc (suc (suc (suc (suc zero))))))) h = refl
digit_code (suc (suc (suc (suc (suc (suc (suc (suc zero)))))))) h = refl
digit_code (suc (suc (suc (suc (suc (suc (suc (suc (suc zero))))))))) h = refl
digit_code (suc (suc (suc (suc (suc (suc (suc (suc (suc (suc n)))))))))) h = absurd (omega arith)

digits_value-digit :
    (d k : ℕ) (out : String)
    → d < 10
    → digits_value (String.◌∷◌ (digit d) out) k ≡ digits_value out (k * 10 + d)
unfolding digits_value
digits_value-digit d k out h = ground (arith, digit_code d h)

digits_value-digits :
    (f n : ℕ) (out : String) → n < 10 ^ f → digits_value (digits f n out) 0 ≡ digits_value out n
unfolding digits
digits_value-digits zero n out h = ap (digits_value out) (omega arith)
digits_value-digits (suc f) n out h = elim (Bool-cases (ltb n 10)) [
  | inl e ↦ rw e (digits_value-digit n 0 out (ground arith) ∙ ap (digits_value out) (omega arith))
  | inr e ↦ rw e (
      digits_value-digits f (n / 10) _ (omega (arith, pow-suc 10 f))
      ∙ digits_value-digit (n % 10) (n / 10) out (omega arith)
      ∙ ap (digits_value out) (omega arith))
]

-- The text begins with a digit.
digits_first :
    (f n : ℕ) (out : String)
    → (d : ℕ) × (r : String) × (d < 10) × (digits (suc f) n out ≡ String.◌∷◌ (digit d) r)
unfolding digits
digits_first zero n out = elim (Bool-cases (ltb n 10)) [
  | inl e ↦ (n, out, ground arith, rw e)
  | inr e ↦ (n % 10, out, omega arith, rw e)
]
digits_first (suc f) n out = elim (Bool-cases (ltb n 10)) [
  | inl e ↦ (n, out, ground arith, rw e)
  | inr e ↦
      let (d, r, h, p) = digits_first f (n / 10) (String.◌∷◌ (digit (n % 10)) out) in
      (d, r, h, rw e p)
]

digit-is_digit : (d : ℕ) → d < 10 → is_digit (code (digit d)) ≡ true
digit-is_digit d h = ground (arith, digit_code d h)

digits-AllChars :
    (f n : ℕ) (out : String) → AllChars is_digit out → AllChars is_digit (digits f n out)
unfolding digits
digits-AllChars zero n out h = h
digits-AllChars (suc f) n out h = elim (Bool-cases (ltb n 10)) [
  | inl e ↦ rw e (digit-is_digit n (ground arith), h)
  | inr e ↦ rw e (digits-AllChars f (n / 10) _ (digit-is_digit (n % 10) (omega arith), h))
]

pub itoa-AllChars : (n : ℕ) → AllChars is_digit (itoa (pos n))
unfolding itoa
itoa-AllChars n = digits-AllChars 20 n "" tt

pub AllChars-imp :
    (p q : ℕ → Bool)
    → ((n : ℕ) → p n ≡ true → q n ≡ true)
    → (s : String) → AllChars p s
    → AllChars q s
AllChars-imp p q f String.[] h = tt
AllChars-imp p q f (String.◌∷◌ c s) h = (f (code c) h.0, AllChars-imp p q f s h.1)

atoi-digit :
    (d : ℕ) (r : String)
    → d < 10
    → atoi (String.◌∷◌ (digit d) r)
      ≡ (elim (below (2 ^ 63) (digits_value (String.◌∷◌ (digit d) r) 0)) [
        | none ↦ none
        | some n ↦ some (pos n)
      ])
unfolding atoi unsigned_value
atoi-digit d r h = ground (arith, digit_code d h)

digits_value-digits_nil : (f n : ℕ) → n < 10 ^ f → digits_value (digits f n "") 0 ≡ some n
unfolding digits_value
digits_value-digits_nil f n h = digits_value-digits f n "" h

atoi-digits : (f n : ℕ) → n < 10 ^ suc f → n < 2 ^ 63 → atoi (digits (suc f) n "") ≡ some (pos n)
atoi-digits f n h k =
    let (d, r, lt, e) = digits_first f n "" in
    let value : digits_value (String.◌∷◌ (digit d) r) 0 ≡ some n =
      sym (ap (λ s. digits_value s 0) e) ∙ digits_value-digits_nil (suc f) n h in
    rw e (atoi-digit d r lt ∙ ground arith)

-- `strconv.Atoi` reads what `strconv.Itoa` prints, for every `int` that is not negative.
pub atoi-itoa : (n : ℕ) → n < 2 ^ 63 → atoi (itoa (pos n)) ≡ some (pos n)
unfolding itoa
atoi-itoa n h = atoi-digits 19 n (omega arith) h

pub append-dash : (t : String) → String.◌++◌ "-" t ≡ String.◌∷◌ (char_at "-" 0) t
append-dash t = cons-append (char_at "-" 0) "" t ∙ ap (String.◌∷◌ (char_at "-" 0)) (nil-append t)

-- The first dash stands behind the digits.
pub cut-digits :
    (s t : String)
    → AllChars is_digit s
    → cut b'-' (String.◌++◌ s (String.◌++◌ "-" t)) ≡ some (s, t)
unfolding cut
cut-digits String.[] t h = rw (nil-append (String.◌++◌ "-" t), append-dash t)
cut-digits (String.◌∷◌ c s) t h =
    rw (cons-append c s (String.◌++◌ "-" t)) (ground (arith, cut-digits s t h.1))
