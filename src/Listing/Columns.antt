-- ===== src/Listing/Columns.antt =====
-- The width of the column of sizes.
use ftps_qftp_server.Prelude.{
  ℕ, ◌+◌, ◌-◌, ◌*◌, ◌^◌, ◌≤◌, ◌<◌, ◌≡◌, refl, ap, List, [], ◌∷◌, ◌++◌, length, take, replicate,
  length-append, length-replicate, length-take_of_le, arith,
}
use ftps_qftp_server.Prelude.Int.{pos}
use ftps_qftp_server.Text.{Bytes}
use ftps_qftp_server.Number.{format_nat, format_int}
use ftps_qftp_server.Number.Digits.{format_nat_digit, length-format_nat}
use ftps_qftp_server.Listing.{lpad}

abbrev space : ℕ
space = b' '

-- The padded text has the wanted length, whatever the input is.
pub length-lpad : (input : Bytes) (n : ℕ) → length (lpad input n) ≡ n
unfolding lpad
length-lpad input n = ground (
  arith,
  length-append {0} (replicate (n - length input) space) input,
  length-replicate {0} (n - length input) space,
  length-take_of_le {0} n input,
)

take-append {ℓ} : {A : Type ℓ} (xs ys : List A) → take (length xs) (xs ++ ys) ≡ xs
take-append [] ys = refl
take-append (x ∷ xs) ys = ap (λ t. x ∷ t) (take-append xs ys)

-- A text of exactly the wanted length and one byte more lose the same.
lpad_cut : (s : Bytes) (c n : ℕ) → length s ≡ n → lpad (s ++ c ∷ []) n ≡ lpad s n
unfolding lpad
lpad_cut s c n h = ground (
  arith,
  h,
  length-append {0} s (c ∷ []),
  ap (λ k. take k (s ++ c ∷ [])) h,
  take-append {0} s (c ∷ []),
)

-- A size of thirteen digits is listed like its tenth: the last digit is lost.
pub lpad_thirteen :
    (n d : ℕ)
    → 10 ^ 11 ≤ n
    → n < 10 ^ 12
    → d < 10
    → lpad (format_int (pos (n * 10 + d))) 12 ≡ lpad (format_int (pos n)) 12
unfolding format_int
lpad_thirteen n d h k small =
    rw (format_nat_digit n d (omega arith) small)
      (lpad_cut (format_nat n) (b'0' + d) 12 (length-format_nat 11 n h k))
