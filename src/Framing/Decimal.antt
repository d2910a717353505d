-- ===== src/Framing/Decimal.antt =====
-- Decimal numbers as the frame header writes and reads them: `fmt.Sprintf("%d", n)` and
-- `strconv.ParseInt(s, 10, 64)` on digits.
use fancy_go.Base.{
  ℕ, zero, suc, ◌+◌, ◌-◌, ◌*◌, ◌/◌, ◌%◌, ◌^◌, ◌≤◌, ◌<◌, ◌≡◌, ◌≢◌, Bool, true, false, ◌&&◌, [], ◌∷◌,
  Option, none, some, arith, Bytes, leb, ltb, if◌then◌else◌, length, All,
}

unfoldable pub is_digit : ℕ → Bool
is_digit c = leb b'0' c && leb c b'9'

-- The digits of `n`, the last first to be found; one round of fuel for each digit.
unfoldable pub emit : ℕ → ℕ → Bytes → Bytes
emit zero n out = out
emit (suc fuel) n out = elim (ltb n 10) [
  | true ↦ (b'0' + n) ∷ out
  | false ↦ emit fuel (n / 10) ((b'0' + n % 10) ∷ out)
]

unfoldable pub format : ℕ → Bytes
unfolding emit
format n = emit (n + 1) n []

-- The number that digits spell behind `n`.
unfoldable pub value : ℕ → Bytes → ℕ
value n [] = n
value n (c ∷ s) = value (n * 10 + (c - b'0')) s

abbrev pub max_int64 : ℕ
max_int64 = 2 ^ 63 - 1

-- `none` is the range error. The text is one or more digits, so there is no syntax error.
unfoldable pub parse_int : Bytes → Option ℕ
parse_int s = if leb (value 0 s) max_int64 then some (value 0 s) else none

abbrev pub IsDigits : Bytes → Type 0
IsDigits = All (λ c. is_digit c ≡ true)

pub value-emit : (fuel n : ℕ) (out : Bytes) → n < fuel → value 0 (emit fuel n out) ≡ value n out
unfolding emit value
value-emit zero n out h = absurd (omega arith)
value-emit (suc fuel) n out h = ground (arith, value-emit fuel (n / 10) ((b'0' + n % 10) ∷ out))

pub value-format : (n : ℕ) → value 0 (format n) ≡ n
unfolding format value
value-format n = value-emit (n + 1) n [] (omega arith)

emit-IsDigits : (fuel n : ℕ) (out : Bytes) → IsDigits out → IsDigits (emit fuel n out)
unfolding emit is_digit
emit-IsDigits zero n out h = h
emit-IsDigits (suc fuel) n out h =
    ground (arith, emit-IsDigits fuel (n / 10) ((b'0' + n % 10) ∷ out))

pub format-IsDigits : (n : ℕ) → IsDigits (format n)
unfolding format
format-IsDigits n = emit-IsDigits (n + 1) n [] tt

emit-ne-nil : (fuel n : ℕ) (out : Bytes) → n < fuel → emit fuel n out ≢ []
unfolding emit
emit-ne-nil zero n out h = absurd (omega arith)
emit-ne-nil (suc fuel) n out h = ground (arith, emit-ne-nil fuel (n / 10) ((b'0' + n % 10) ∷ out))

pub format-ne-nil : (n : ℕ) → format n ≢ []
unfolding format
format-ne-nil n = emit-ne-nil (n + 1) n [] (omega arith)

-- Ten to the power `k`, by the recursion that `omega` reads.
abbrev pub pow10 : ℕ → ℕ
pow10 zero = 1
pow10 (suc k) = 10 * pow10 k

length-emit :
    (k fuel n : ℕ) (out : Bytes) → n < pow10 (suc k) → length (emit fuel n out) ≤ suc k + length out
unfolding emit
length-emit k zero n out h = omega arith
length-emit zero (suc fuel) n out h = ground arith
length-emit (suc k) (suc fuel) n out h =
    ground (arith, length-emit k fuel (n / 10) ((b'0' + n % 10) ∷ out))

-- A number of at most `k + 1` digits is printed with as many.
pub length-format : (k n : ℕ) → n < pow10 (suc k) → length (format n) ≤ suc k
unfolding format
length-format k n h = omega (arith, length-emit k (n + 1) n [] h)

-- Every int64 that is not negative is read back from its print.
pub parse_int-format : (n : ℕ) → n ≤ max_int64 → parse_int (format n) ≡ some n
unfolding parse_int
parse_int-format n h = ground (arith, value-format n)
