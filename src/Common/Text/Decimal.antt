-- ===== src/Common/Text/Decimal.antt =====
-- strconv: what FormatInt prints, ParseInt reads back.
use Prim.Native.String.{String}
use Prim.Native.Char.{code}
use goqueuesim.Common.{
  ℕ, zero, suc, ◌+◌, ◌*◌, ◌/◌, ◌%◌, ◌≤◌, ◌<◌, ◌≡◌, refl, ◌∙◌, ap, inl, inr, none, some, arith, ltb,
  Bool-cases, ℤ, pos, negsuc,
}
use goqueuesim.Common.Word.{IsI64}
use goqueuesim.Common.Text.{
  digit, code-digit, emit, format_nat, format_int, scan, parse_nat, in_range_pos, in_range_neg,
  parse_int,
}

scan-digit : (d n : ℕ) (s : String) → d < 10 → scan (String.◌∷◌ (digit d) s) n ≡ scan s (n * 10 + d)
unfolding scan
scan-digit d n s h = rw (code-digit d h) (ground (arith, code-digit d h))

-- Printing before `rest` and reading on from there gives the number.
scan-emit : (fuel n : ℕ) (rest : String) → n < fuel → scan (emit fuel n rest) 0 ≡ scan rest n
unfolding emit
scan-emit zero n rest h = absurd (omega arith)
scan-emit (suc fuel) n rest h = elim (Bool-cases (ltb n 10)) [
  | inl one ↦ rw one (scan-digit n 0 rest (ground arith) ∙ ap (scan rest) (omega arith))
  | inr more ↦ rw more (
      scan-emit fuel (n / 10) (String.◌∷◌ (digit (n % 10)) rest) (ground arith)
      ∙ scan-digit (n % 10) (n / 10) rest (omega arith)
      ∙ ap (scan rest) (omega arith))
]

-- The first byte printed is a digit.
abbrev Starts : String → Type 0
Starts String.[] = ⊥
Starts (String.◌∷◌ c s) = (b'0' ≤ code c) × (code c ≤ b'9')

emit-Starts : (fuel n : ℕ) (rest : String) → n < fuel → Starts (emit fuel n rest)
unfolding emit
emit-Starts zero n rest h = absurd (omega arith)
emit-Starts (suc fuel) n rest h = elim (Bool-cases (ltb n 10)) [
  | inl one ↦
      let low : n < 10 = ground arith in rw (one, code-digit n low) (omega arith, omega arith)
  | inr more ↦ rw more (emit-Starts fuel (n / 10) (String.◌∷◌ (digit (n % 10)) rest) (ground arith))
]

parse_nat_of_Starts : (s : String) → Starts s → parse_nat s ≡ scan s 0
unfolding parse_nat
parse_nat_of_Starts String.[] h = absurd h
parse_nat_of_Starts (String.◌∷◌ c s) h = refl

pub parse_nat-format_nat : (n : ℕ) → parse_nat (format_nat n) ≡ some n
unfolding format_nat
parse_nat-format_nat n =
    parse_nat_of_Starts (emit (suc n) n "") (emit-Starts (suc n) n "" (omega arith))
    ∙ scan-emit (suc n) n "" (omega arith)
    ∙ unfold scan in refl

parse_int_of_Starts : (s : String) → Starts s → parse_int s ≡ in_range_pos (parse_nat s)
unfolding parse_int
parse_int_of_Starts String.[] h = absurd h
parse_int_of_Starts (String.◌∷◌ c s) h = ground arith

parse_int-minus : (s : String) → parse_int (String.◌∷◌ "-" s) ≡ in_range_neg (parse_nat s)
unfolding parse_int
parse_int-minus s = refl

-- An int64 that is printed in base 10 is read back unchanged.
pub parse_int-format_int : (a : ℤ) → IsI64 a → parse_int (format_int a) ≡ some a
unfolding format_int in_range_pos in_range_neg
parse_int-format_int (pos n) h =
    parse_int_of_Starts (format_nat n) (unfold format_nat in emit-Starts (suc n) n "" (omega arith))
    ∙ ap in_range_pos (parse_nat-format_nat n)
    ∙ ground arith
parse_int-format_int (negsuc n) h =
    parse_int-minus (format_nat (suc n))
    ∙ ap in_range_neg (parse_nat-format_nat (suc n))
    ∙ ground arith

format_int_example : format_int (negsuc 1204) ≡ "-1205"
unfolding format_int
format_int_example = refl

parse_int_refuses :
    (parse_int "12x" ≡ none) × (parse_int "" ≡ none) × (parse_int "9223372036854775808" ≡ none)
unfolding parse_int
parse_int_refuses = (refl, refl, refl)
