-- ===== src/Text.antt =====
-- Go's `strings` package as far as the servers call it, on texts as lists of bytes.
-- The cuts, trims and searches that walk a text are in the module below.
pub mod Scan
pub mod Split
pub mod Equality
use Prim.Native.Char.{code}
use ftps_qftp_server.Prelude.{
  ℕ, ◌-◌, Bool, true, false, ◌&&◌, List, [], ◌∷◌, map, String, ltb, leb, ◌==◌, if◌then◌else◌,
}

abbrev pub Bytes : Type 0
Bytes = List ℕ

-- The bytes of an ASCII literal.
unfoldable pub codes : String → Bytes
codes String.[] = []
codes (String.◌∷◌ c s) = code c ∷ codes s

-- `a == b` on strings.
unfoldable pub bytes_eq : Bytes → Bytes → Bool
bytes_eq [] [] = true
bytes_eq [] (d ∷ t) = false
bytes_eq (c ∷ s) [] = false
bytes_eq (c ∷ s) (d ∷ t) = c == d && bytes_eq s t

-- `strings.HasPrefix(s, p)`.
unfoldable pub has_prefix : Bytes → Bytes → Bool
has_prefix s [] = true
has_prefix [] (d ∷ p) = false
has_prefix (c ∷ s) (d ∷ p) = c == d && has_prefix s p

unfoldable pub upper_byte : ℕ → ℕ
upper_byte c = if leb b'a' c && leb c b'z' then c - 32 else c

unfoldable pub is_ascii : Bytes → Bool
is_ascii [] = true
is_ascii (c ∷ s) = ltb c 128 && is_ascii s

-- `strings.ToUpper`: Go's path for ASCII, and its Unicode tables, which are the first argument.
unfoldable pub to_upper : (Bytes → Bytes) → Bytes → Bytes
unfolding upper_byte is_ascii
to_upper unicode s = if is_ascii s then map upper_byte s else unicode s
