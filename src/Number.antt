-- ===== src/Number.antt =====
-- Go's `strconv` as far as the servers call it: `Itoa` and `FormatInt` in base 10, `ParseInt` in base
-- 10 for 64 bits and `Atoi`, which is the same on a system with a 64-bit `int`.
pub mod RoundTrip
pub mod Digits
use ftps_qftp_server.Prelude.{
  ℕ, zero, suc, ◌+◌, ◌-◌, ◌*◌, ◌/◌, ◌%◌, ◌^◌, ◌≡◌, refl, Bool, true, false, ◌||◌, [], ◌∷◌, ltb, leb,
  ◌==◌, if◌then◌else◌,
}
use ftps_qftp_server.Prelude.Int.{ℤ, pos, negsuc, max_int64}
use ftps_qftp_server.Text.{Bytes, codes}

-- One round for each digit; what stands behind them is the last argument.
unfoldable pub digits : ℕ → ℕ → Bytes → Bytes
digits zero n out = out
digits (suc fuel) n out =
    let rest = digits fuel (n / 10) ((b'0' + n % 10) ∷ out) in if n == 0 then out else rest

-- A number has at most as many digits as its value, or the one digit 0.
unfoldable pub format_nat : ℕ → Bytes
unfolding digits
format_nat n = if n == 0 then b'0' ∷ [] else digits n n []

-- `strconv.Itoa(n)`, `strconv.FormatInt(n, 10)` and `%d`.
unfoldable pub format_int : ℤ → Bytes
unfolding format_nat
format_int (pos n) = format_nat n
format_int (negsuc n) = b'-' ∷ format_nat (suc n)

-- The error of a `*NumError`, `fine` for nil.
pub data Status : Type 0 where
  fine bad_syntax out_of_range : Status

abbrev pub max_uint64 : ℕ
max_uint64 = 2 ^ 64 - 1

-- The loop of `ParseUint`, with its two tests for an overflow of `uint64`.
unfoldable pub scan_uint : Bytes → ℕ → ℕ × Status
scan_uint [] n = (n, fine)
scan_uint (c ∷ s) n =
    let d = c - b'0' in
    let n1 = (n * 10 + d) % 2 ^ 64 in
    if ltb c b'0' || ltb b'9' c
    then (0, bad_syntax)
    else if leb (max_uint64 / 10 + 1) n
    then (max_uint64, out_of_range)
    else if ltb n1 (n * 10)
    then (max_uint64, out_of_range)
    else scan_uint s n1

unfoldable pub parse_uint : Bytes → ℕ × Status
unfolding scan_uint
parse_uint [] = (0, bad_syntax)
parse_uint (c ∷ s) = scan_uint (c ∷ s) 0

unfoldable pub negate : ℕ → ℤ
negate zero = pos 0
negate (suc n) = negsuc n

-- The end of `ParseInt`: a value that does not fit is replaced by the nearest one that does.
unfoldable pub signed : Bool → ℕ × Status → ℤ × Status
unfolding negate
signed neg (un, bad_syntax) = (pos 0, bad_syntax)
signed true (un, _) =
    if ltb (2 ^ 63) un then (negsuc max_int64, out_of_range) else (negate un, fine)
signed false (un, _) = if leb (2 ^ 63) un then (pos max_int64, out_of_range) else (pos un, fine)

-- `strconv.ParseInt(s, 10, 64)` and `strconv.Atoi(s)`.
unfoldable pub parse_int : Bytes → ℤ × Status
unfolding signed parse_uint
parse_int [] = (pos 0, bad_syntax)
parse_int (c ∷ s) =
    if c == b'-'
    then signed true (parse_uint s)
    else if c == b'+'
    then signed false (parse_uint s)
    else signed false (parse_uint (c ∷ s))

format_int_example : format_int (negsuc 1233) ≡ codes "-1234"
unfolding format_int codes
format_int_example = refl

parse_int_example : parse_int (codes "-9223372036854775808") ≡ (negsuc max_int64, fine)
unfolding parse_int codes
parse_int_example = refl

parse_int_large : parse_int (codes "99999999999999999999x") ≡ (pos max_int64, out_of_range)
unfolding parse_int codes
parse_int_large = refl
