-- ===== src/Portmap/Parse.antt =====
-- `ParseHopPorts`: which ranges it accepts, and that it reads a range as it is printed.
use text.Mathlib.TextLemmas.{append-ne-nil_of_right_ne-nil, cons≢nil}
use kknode.Base.{ℕ, ◌≤◌, String, ◌≡◌, refl, sym, ◌∙◌, ◌⊎◌, true, false, [], ◌∷◌, arith}
use kknode.Base.Int.{ℤ, pos, ◌≤ℤ◌}
use kknode.Base.Eq.{string_eq, ◌==◌, beq_ne}
use kknode.Base.Result.{ok}
use kknode.Base.Text.{concat, itoa, trim_space}
use kknode.Base.Text.Numbers.{
  append-dash, AllChars, AllChars-append, AllChars-imp, is_digit, is_plain, trim_space_plain,
  itoa-AllChars, atoi-itoa, cut-digits,
}
use kknode.Portmap.{check_range, parse_hop_ports}

-- A text that is accepted is blank and stands for no range, or gives a range of ports.
pub parse_hop_ports_range :
    (s : String) (a b : ℤ)
    → parse_hop_ports s ≡ ok (a, b)
    → ((trim_space s ≡ "") × (a ≡ pos 0) × (b ≡ pos 0))
      ⊎ ((pos 1 ≤ℤ a) × (a ≤ℤ b) × (b ≤ℤ pos 65535))
unfolding parse_hop_ports check_range
parse_hop_ports_range s a b h = ground (arith, string_eq.beq_iff (trim_space s) "")

digit_plain : (n : ℕ) → is_digit n ≡ true → is_plain n ≡ true
digit_plain n h = ground arith

abbrev range_text : ℕ → ℕ → String
range_text a b = concat (itoa (pos a) ∷ "-" ∷ itoa (pos b) ∷ [])

range_text-AllChars : (a b : ℕ) → AllChars is_plain (range_text a b)
range_text-AllChars a b =
    AllChars-append is_plain (itoa (pos a)) _
      (AllChars-imp is_digit is_plain digit_plain _ (itoa-AllChars a))
      (AllChars-append is_plain "-" _ (refl, tt)
        (AllChars-imp is_digit is_plain digit_plain _ (itoa-AllChars b)))

trim_space-itoa : (n : ℕ) → trim_space (itoa (pos n)) ≡ itoa (pos n)
trim_space-itoa n =
    trim_space_plain _ (AllChars-imp is_digit is_plain digit_plain _ (itoa-AllChars n))

range_text-ne-nil : (a b : ℕ) → (range_text a b == "") ≡ false
range_text-ne-nil a b = beq_ne (range_text a b) "" (
    append-ne-nil_of_right_ne-nil (itoa (pos a))
      (λ e. cons≢nil (sym (append-dash (itoa (pos b))) ∙ e)))

-- Reading a range back as it is printed: START-END in decimal, for ports in order.
pub parse_hop_ports-print :
    (a b : ℕ)
    → 1 ≤ a
    → a ≤ b
    → b ≤ 65535
    → parse_hop_ports (concat (itoa (pos a) ∷ "-" ∷ itoa (pos b) ∷ [])) ≡ ok (pos a, pos b)
unfolding parse_hop_ports check_range
parse_hop_ports-print a b h k l = ground (
  arith,
  trim_space_plain (range_text a b) (range_text-AllChars a b),
  range_text-ne-nil a b,
  cut-digits (itoa (pos a)) (itoa (pos b)) (itoa-AllChars a),
  trim_space-itoa a,
  trim_space-itoa b,
  atoi-itoa a (omega arith),
  atoi-itoa b (omega arith),
)
