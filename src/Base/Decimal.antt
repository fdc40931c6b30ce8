-- ===== src/Base/Decimal.antt =====
-- `strconv.FormatInt` and `strconv.ParseInt` in base 10.
use Prim.Native.Nat.{ℕ, zero, suc, ◌+◌, ◌-◌, ◌*◌, ◌/◌, ◌%◌, ◌^◌, ◌<◌, ◌≤◌}
use native.Mathlib.Omega.{arith}
use mathlib.Core.Logic.{inl, inr}
use mathlib.Core.Path.{◌≡◌, refl, ap, ◌∙◌}
use mathlib.Core.Bool.{Bool, true, false, ◌&&◌}
use mathlib.Core.List.{[], ◌∷◌}
use mathlib.Core.Option.{Option, none, some}
use cars.Base.Tests.{Bool-cases, ==_iff, ltb, leb, ◌==◌, if◌then◌else◌}
use cars.Base.Strings.{Text, txt}
use cars.Base.Int.{ℤ, pos, negsuc}

-- The digits of `n` in front of `out`; every round divides by ten, so `n` rounds are enough.
emit : ℕ → ℕ → Text → Text
emit zero n out = out
emit (suc fuel) n out = elim (n == 0) [
  | true ↦ out
  | false ↦ emit fuel (n / 10) ((b'0' + n % 10) ∷ out)
]

unfoldable pub format_nat : ℕ → Text
unfolding emit
format_nat n = if n == 0 then b'0' ∷ [] else emit n n []

unfoldable pub format_int : ℤ → Text
unfolding format_nat
format_int (pos n) = format_nat n
format_int (negsuc n) = b'-' ∷ format_nat (suc n)

abbrev is_digit : ℕ → Bool
is_digit c = leb b'0' c && leb c b'9'

abbrev max_uint64 : ℕ
max_uint64 = 2 ^ 64 - 1

-- The value of a run of digits, `none` if another byte stands in it. The scan stops, with the
-- largest `uint64`, at the digit by which the value leaves the range.
unfoldable pub scan_digits : Text → ℕ → Option ℕ
scan_digits [] n = some n
scan_digits (c ∷ s) n =
    let m = n * 10 + (c - b'0') in
    let rest = scan_digits s m in
    if is_digit c then (if ltb max_uint64 m then some max_uint64 else rest) else none

unfoldable pub parse_digits : Text → Option ℕ
unfolding scan_digits
parse_digits [] = none
parse_digits (c ∷ s) = scan_digits (c ∷ s) 0

-- A value out of range is clamped to the nearest `int64`, and a syntax error gives 0.
abbrev clamp_pos : Option ℕ → ℤ
clamp_pos none = pos 0
clamp_pos (some n) = if ltb n (2 ^ 63) then pos n else pos (2 ^ 63 - 1)

abbrev clamp_neg : Option ℕ → ℤ
clamp_neg none = pos 0
clamp_neg (some zero) = pos 0
clamp_neg (some (suc n)) = if ltb n (2 ^ 63) then negsuc n else negsuc (2 ^ 63 - 1)

-- The value, without the error, of `strconv.ParseInt(s, 10, 0)`, where `int` has 64 bits.
unfoldable pub parse_int_value : Text → ℤ
unfolding parse_digits
parse_int_value [] = pos 0
parse_int_value (c ∷ s) =
    if c == b'-'
    then clamp_neg (parse_digits s)
    else if c == b'+'
    then clamp_pos (parse_digits s)
    else clamp_pos (parse_digits (c ∷ s))

format_test : format_int (negsuc 1023) ≡ txt "-1024"
unfolding format_int
format_test = refl

parse_test : parse_int_value (txt "18446744073709551615") ≡ pos 9223372036854775807
unfolding parse_int_value
parse_test = refl

scan_digits-digit :
    (d m : ℕ) (out : Text)
    → d < 10
    → m * 10 + d < 2 ^ 63
    → scan_digits ((b'0' + d) ∷ out) m ≡ scan_digits out (m * 10 + d)
unfolding scan_digits
scan_digits-digit d m out h k =
    let e : m * 10 + ((b'0' + d) - b'0') ≡ m * 10 + d = omega arith in rw e (ground arith)

emit-scan :
    (fuel n : ℕ) (out : Text)
    → n ≤ fuel
    → n < 2 ^ 63
    → scan_digits (emit fuel n out) 0 ≡ scan_digits out n
unfolding emit
emit-scan zero n out h k = let e : 0 ≡ n = omega arith in ap (scan_digits out) e
emit-scan (suc fuel) n out h k = elim (Bool-cases (n == 0)) [
  | inl nought ↦ rw (nought, emit) (ap (scan_digits out) (omega (arith, (==_iff n 0).0 nought)))
  | inr more ↦
      rw (more, emit)
        (emit-scan fuel (n / 10) ((b'0' + n % 10) ∷ out) (ground arith) (omega arith)
          ∙ scan_digits-digit (n % 10) (n / 10) out (omega arith) (omega arith)
          ∙ ap (scan_digits out) (omega arith))
]

-- A text whose first byte is a digit.
abbrev StartsByDigit : Text → Type 0
StartsByDigit t = (c : ℕ) × (s : Text) × (t ≡ c ∷ s) × (is_digit c ≡ true)

emit-StartsByDigit : (fuel n : ℕ) (out : Text) → StartsByDigit out → StartsByDigit (emit fuel n out)
unfolding emit
emit-StartsByDigit zero n out h = h
emit-StartsByDigit (suc fuel) n out h = elim (Bool-cases (n == 0)) [
  | inl nought ↦ rw (nought, emit) h
  | inr more ↦
      rw (more, emit)
        (emit-StartsByDigit fuel (n / 10) ((b'0' + n % 10) ∷ out)
          (b'0' + n % 10, out, refl, ground arith))
]

emit-first : (fuel n : ℕ) → (n == 0) ≡ false → StartsByDigit (emit (suc fuel) n [])
unfolding emit
emit-first fuel n h =
    rw (h, emit)
      (emit-StartsByDigit fuel (n / 10) ((b'0' + n % 10) ∷ [])
        (b'0' + n % 10, [], refl, ground arith))

parse_int_value-digits :
    (t : Text) (n : ℕ)
    → StartsByDigit t
    → scan_digits t 0 ≡ some n
    → n < 2 ^ 63
    → parse_int_value t ≡ pos n
unfolding parse_int_value
parse_int_value-digits t n (c, s, e, d) h k = ground arith

parse_zero : parse_int_value (b'0' ∷ []) ≡ pos 0
unfolding parse_int_value
parse_zero = refl

-- A number that `int64` holds is read back from its digits.
pub parse_int_value-format_nat : (n : ℕ) → n < 2 ^ 63 → parse_int_value (format_nat n) ≡ pos n
unfolding format_nat scan_digits
parse_int_value-format_nat zero h = parse_zero
parse_int_value-format_nat (suc n) h =
    let positive : (suc n == 0) ≡ false = ground arith in
    rw (positive, format_nat)
      (parse_int_value-digits (emit (suc n) (suc n) []) (suc n) (emit-first n (suc n) positive)
        (emit-scan (suc n) (suc n) [] (omega arith) h) h)
