-- ===== src/Text/Scan.antt =====
-- Trimming and splitting around white space, and searching, as Go's `strings` does it.
use mathlib.Core.List.{reverse}
use ftps_qftp_server.Prelude.{
  ℕ, zero, suc, ◌-◌, Bool, true, false, ◌&&◌, ◌||◌, Option, none, some, List, [], ◌∷◌, ◌++◌, length,
  leb, ◌==◌, if◌then◌else◌,
}
use ftps_qftp_server.Text.{Bytes, has_prefix}

-- `strings.TrimLeft(s, cutset)` for a cutset of ASCII bytes.
unfoldable pub trim_left : (ℕ → Bool) → Bytes → Bytes
trim_left test [] = []
trim_left test (c ∷ s) = if test c then trim_left test s else c ∷ s

-- `strings.Trim(s, cutset)`.
unfoldable pub trim : (ℕ → Bool) → Bytes → Bytes
unfolding trim_left
trim test s = reverse (trim_left test (reverse (trim_left test s)))

-- `unicode.IsSpace` on the UTF-8 form of a rune, by its length.
unfoldable pub is_space : ℕ → Bool
is_space c = (leb 9 c && leb c 13) || c == 32

unfoldable pub is_space_two : ℕ → ℕ → Bool
is_space_two c d = c == 0xc2 && (d == 0x85 || d == 0xa0)

unfoldable pub is_space_three : ℕ → ℕ → ℕ → Bool
is_space_three c d e =
    (c == 0xe1 && d == 0x9a && e == 0x80)
    || (c == 0xe2
        && d == 0x80
        && ((leb 0x80 e && leb e 0x8a) || e == 0xa8 || e == 0xa9 || e == 0xaf))
    || (c == 0xe2 && d == 0x81 && e == 0x9f)
    || (c == 0xe3 && d == 0x80 && e == 0x80)

-- The bytes that a white space at the head of the text takes, 0 if there is none.
module _ (two : ℕ → ℕ → Bool) (three : ℕ → ℕ → ℕ → Bool) where
  unfoldable pub width_three : ℕ → ℕ → Bytes → ℕ
  width_three c d [] = 0
  width_three c d (e ∷ s) = if three c d e then 3 else 0

  unfoldable pub width_two : ℕ → Bytes → ℕ
  unfolding width_three
  width_two c [] = 0
  width_two c (d ∷ s) = if two c d then 2 else width_three c d s

  unfoldable pub width : ℕ → Bytes → ℕ
  unfolding width_two is_space
  width c s = if is_space c then 1 else width_two c s

  -- The first argument counts the bytes that are left of a white space.
  unfoldable pub skip_space : ℕ → Bytes → Bytes
  unfolding width
  skip_space k [] = []
  skip_space (suc k) (c ∷ s) = skip_space k s
  skip_space zero (c ∷ s) = elim (width c s) [ zero ↦ c ∷ s | suc k ↦ skip_space k s ]

unfoldable pub space_width : ℕ → Bytes → ℕ
unfolding width is_space_two is_space_three
space_width = width is_space_two is_space_three

-- `strings.TrimSpace`: from the front, and from the back with the bytes of a rune the other way.
unfoldable pub trim_space : Bytes → Bytes
unfolding skip_space is_space_two is_space_three
trim_space s = reverse (
    skip_space (λ d c. is_space_two c d) (λ e d c. is_space_three c d e) 0
      (reverse (skip_space is_space_two is_space_three 0 s)))

-- A field that ends, if it has a byte; its bytes are collected in reverse.
unfoldable pub flush : Bytes → List Bytes
flush [] = []
flush (c ∷ cur) = reverse (c ∷ cur) ∷ []

unfoldable pub fields_from : ℕ → Bytes → Bytes → List Bytes
unfolding space_width flush
fields_from k cur [] = flush cur
fields_from (suc k) cur (c ∷ s) = fields_from k cur s
fields_from zero cur (c ∷ s) = elim (space_width c s) [
  | zero ↦ fields_from 0 (c ∷ cur) s
  | suc k ↦ flush cur ++ fields_from k [] s
]

-- `strings.Fields`.
unfoldable pub fields : Bytes → List Bytes
unfolding fields_from
fields = fields_from 0 []

-- `strings.LastIndex(s, sub)` for a `sub` that is not empty; `none` is -1.
unfoldable pub last_index : Bytes → Bytes → Option ℕ
unfolding has_prefix
last_index [] sub = none
last_index (c ∷ s) sub = elim (last_index s sub) [
  | some k ↦ some (suc k)
  | none ↦ if has_prefix (c ∷ s) sub then some 0 else none
]

unfoldable pub replace_from : ℕ → Bytes → Bytes → Bytes → Bytes
unfolding has_prefix
replace_from k old new [] = []
replace_from (suc k) old new (c ∷ s) = replace_from k old new s
replace_from zero old new (c ∷ s) = elim (has_prefix (c ∷ s) old) [
  | true ↦ new ++ replace_from (length old - 1) old new s
  | false ↦ c ∷ replace_from 0 old new s
]

-- `strings.Replace(s, old, new, -1)` for an `old` that is not empty.
unfoldable pub replace : Bytes → Bytes → Bytes → Bytes
unfolding replace_from
replace s old new = replace_from 0 old new s
