-- ===== src/Number/Digits.antt =====
-- How many digits a number has, and what one more digit does to its print.
use native.Mathlib.Nat.{pow-suc, one-le-pow}
use ftps_qftp_server.Prelude.{
  ℕ, zero, suc, ◌+◌, ◌*◌, ◌/◌, ◌%◌, ◌^◌, ◌≤◌, ◌<◌, ◌≡◌, refl, [], ◌∷◌, ◌++◌, length, arith,
  append_assoc,
}
use ftps_qftp_server.Text.{Bytes}
use ftps_qftp_server.Number.{digits, format_nat}

digits_zero : (fuel : ℕ) (out : Bytes) → digits fuel 0 out ≡ out
unfolding digits
digits_zero zero out = refl
digits_zero (suc fuel) out = refl

-- Any fuel from the number up gives the same print.
digits_fuel : (f g n : ℕ) (out : Bytes) → n ≤ f → n ≤ g → digits f n out ≡ digits g n out
unfolding digits
digits_fuel zero zero n out hf hg = refl
digits_fuel zero (suc g) n out hf hg = ground arith
digits_fuel (suc f) zero n out hf hg = ground arith
digits_fuel (suc f) (suc g) n out hf hg =
    ground (arith, digits_fuel f g (n / 10) ((b'0' + n % 10) ∷ out))

digits-append : (fuel n : ℕ) (out : Bytes) → digits fuel n out ≡ digits fuel n [] ++ out
unfolding digits
digits-append zero n out = refl
digits-append (suc fuel) n out = ground (
  arith,
  digits-append fuel (n / 10) ((b'0' + n % 10) ∷ out),
  digits-append fuel (n / 10) ((b'0' + n % 10) ∷ []),
  append_assoc (digits fuel (n / 10) []) ((b'0' + n % 10) ∷ []) out,
)

digits_step :
    (fuel n d : ℕ) (out : Bytes)
    → 0 < n
    → d < 10
    → digits (suc fuel) (n * 10 + d) out ≡ digits fuel n ((b'0' + d) ∷ out)
unfolding digits
digits_step fuel n d out h k =
    let q : (n * 10 + d) / 10 ≡ n = omega arith in
    let r : (n * 10 + d) % 10 ≡ d = omega arith in rw (q, r) (ground arith)

pub format_nat_digit :
    (n d : ℕ) → 0 < n → d < 10 → format_nat (n * 10 + d) ≡ format_nat n ++ (b'0' + d) ∷ []
unfolding format_nat
format_nat_digit n d h k = ground (
  arith,
  digits_fuel (n * 10 + d) (suc n) (n * 10 + d) [],
  digits_fuel (n * 10 + d) (suc (n * 10 + d)) (n * 10 + d) [],
  digits_step (n * 10 + d) n d [] h k,
  digits_fuel (n * 10 + d) n n ((b'0' + d) ∷ []),
  digits-append n n ((b'0' + d) ∷ []),
)

length-digits :
    (k fuel n : ℕ) (out : Bytes)
    → n ≤ fuel
    → 10 ^ k ≤ n
    → n < 10 ^ suc k
    → length (digits fuel n out) ≡ suc k + length out
unfolding digits
length-digits k zero n out h lo hi = absurd (omega (arith, one-le-pow k 10 (omega arith)))
length-digits zero (suc fuel) n out h lo hi =
    ground (arith, digits_zero fuel ((b'0' + n % 10) ∷ out))
length-digits (suc k) (suc fuel) n out h lo hi = ground (
  arith,
  length-digits k fuel (n / 10) ((b'0' + n % 10) ∷ out),
  pow-suc 10 k,
  pow-suc 10 (suc k),
  one-le-pow k 10 (omega arith),
)

pub length-format_nat : (k n : ℕ) → 10 ^ k ≤ n → n < 10 ^ suc k → length (format_nat n) ≡ suc k
unfolding format_nat
length-format_nat k n lo hi = ground (arith, length-digits k n n [], one-le-pow k 10 (omega arith))
