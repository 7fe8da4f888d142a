-- ===== src/Number/RoundTrip.antt =====
-- What is printed in decimal is read back.
use ftps_qftp_server.Prelude.{
  ℕ, zero, suc, Bool, true, false, ◌+◌, ◌-◌, ◌*◌, ◌/◌, ◌%◌, ◌^◌, ◌≤◌, ◌<◌, ◌≡◌, ◌≢◌, refl, [], ◌∷◌,
  All, arith,
}
use ftps_qftp_server.Prelude.Int.{ℤ, pos, negsuc}
use ftps_qftp_server.Text.{Bytes}
use ftps_qftp_server.Number.{
  Status, bad_syntax, out_of_range, digits, format_nat, format_int, fine, scan_uint, parse_uint,
  negate, signed, parse_int,
}

abbrev pub IsDigit : ℕ → Type 0
IsDigit c = (b'0' ≤ c) × (c ≤ b'9')

digits-IsDigit : (fuel n : ℕ) (out : Bytes) → All IsDigit out → All IsDigit (digits fuel n out)
unfolding digits
digits-IsDigit zero n out h = h
digits-IsDigit (suc fuel) n out h =
    ground (arith, digits-IsDigit fuel (n / 10) ((b'0' + n % 10) ∷ out) (omega arith, h))

-- A number is printed in digits only.
pub format_nat-IsDigit : (n : ℕ) → All IsDigit (format_nat n)
unfolding format_nat
format_nat-IsDigit n = ground (arith, digits-IsDigit n n [] tt)

scan_last :
    (n : ℕ) (out : Bytes)
    → n < 2 ^ 64
    → scan_uint ((b'0' + n % 10) ∷ out) (n / 10) ≡ scan_uint out n
unfolding scan_uint
scan_last n out h = ground arith

scan_uint-digits :
    (fuel n : ℕ) (out : Bytes)
    → n ≤ fuel
    → n < 2 ^ 64
    → scan_uint (digits fuel n out) 0 ≡ scan_uint out n
unfolding digits
scan_uint-digits zero n out h fits = ground arith
scan_uint-digits (suc fuel) n out h fits =
    ground (arith, scan_uint-digits fuel (n / 10) ((b'0' + n % 10) ∷ out), scan_last n out fits)

digits-ne-nil : (fuel n : ℕ) (out : Bytes) → out ≢ [] → digits fuel n out ≢ []
unfolding digits
digits-ne-nil zero n out h = h
digits-ne-nil (suc fuel) n out h =
    ground (arith, digits-ne-nil fuel (n / 10) ((b'0' + n % 10) ∷ out))

pub format_nat-ne-nil : (n : ℕ) → format_nat n ≢ []
unfolding format_nat digits
format_nat-ne-nil zero = ground arith
format_nat-ne-nil (suc n) = ground (arith, digits-ne-nil n (suc n / 10) ((b'0' + suc n % 10) ∷ []))

scan_uint-format_nat : (n : ℕ) → n < 2 ^ 64 → scan_uint (format_nat n) 0 ≡ (n, fine)
unfolding format_nat scan_uint
scan_uint-format_nat n h = ground (arith, scan_uint-digits n n [])

parse_uint-scan_uint : (s : Bytes) → s ≢ [] → parse_uint s ≡ scan_uint s 0
unfolding parse_uint
parse_uint-scan_uint [] h = absurd (h refl)
parse_uint-scan_uint (c ∷ s) h = refl

parse_uint-format_nat : (n : ℕ) → n < 2 ^ 64 → parse_uint (format_nat n) ≡ (n, fine)
parse_uint-format_nat n h =
    rw (parse_uint-scan_uint (format_nat n) (format_nat-ne-nil n)) (scan_uint-format_nat n h)

-- A text that begins with a digit has no sign.
parse_int_unsigned :
    (s : Bytes) → s ≢ [] → All IsDigit s → parse_int s ≡ signed false (parse_uint s)
unfolding parse_int
parse_int_unsigned [] h d = absurd (h refl)
parse_int_unsigned (c ∷ s) h d = ground (arith, d.0)

-- An `int64` is one between -2^63 and 2^63 - 1.
abbrev pub IsInt64 : ℤ → Type 0
IsInt64 (pos n) = n < 2 ^ 63
IsInt64 (negsuc n) = n < 2 ^ 63

pub parse_int-format_nat : (n : ℕ) → n < 2 ^ 63 → parse_int (format_nat n) ≡ (pos n, fine)
unfolding signed
parse_int-format_nat n h =
    rw
      (
        parse_int_unsigned (format_nat n) (format_nat-ne-nil n) (format_nat-IsDigit n),
        parse_uint-format_nat n (omega arith),
      )
      (ground arith)

-- Every `int64` is read back from its print.
pub parse_int-format_int : (a : ℤ) → IsInt64 a → parse_int (format_int a) ≡ (a, fine)
unfolding format_int
parse_int-format_int (pos n) h = parse_int-format_nat n h
parse_int-format_int (negsuc n) h =
    unfold parse_int signed negate in
    rw (parse_uint-format_nat (suc n) (omega arith)) (ground arith)

scan_uint-lt : (s : Bytes) (n : ℕ) → n < 2 ^ 64 → (scan_uint s n).0 < 2 ^ 64
unfolding scan_uint
scan_uint-lt [] n h = h
scan_uint-lt (c ∷ s) n h =
    ground (arith, scan_uint-lt s ((n * 10 + (c - b'0')) % 2 ^ 64) (omega arith))

signed-IsInt64 : (neg : Bool) (r : ℕ × Status) → IsInt64 (signed neg r).0
unfolding signed
signed-IsInt64 neg (un, bad_syntax) = omega arith
signed-IsInt64 true (zero, fine) = unfold negate in ground arith
signed-IsInt64 true (suc un, fine) = unfold negate in ground arith
signed-IsInt64 true (zero, out_of_range) = unfold negate in ground arith
signed-IsInt64 true (suc un, out_of_range) = unfold negate in ground arith
signed-IsInt64 false (un, fine) = ground arith
signed-IsInt64 false (un, out_of_range) = ground arith

-- Whatever the text is, the result is an `int64`.
pub parse_int-IsInt64 : (s : Bytes) → IsInt64 (parse_int s).0
unfolding parse_int
parse_int-IsInt64 [] = omega arith
parse_int-IsInt64 (c ∷ s) = ground (
  arith,
  signed-IsInt64 true (parse_uint s),
  signed-IsInt64 false (parse_uint s),
  signed-IsInt64 false (parse_uint (c ∷ s)),
)
