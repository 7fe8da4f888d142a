-- ===== src/Listing/Lines.antt =====
-- A client cuts a short listing into the names again.
use ftps_qftp_server.Prelude.{
  ◌≡◌, ◌≢◌, refl, sym, ap, ◌∙◌, List, [], ◌∷◌, ◌++◌, map, All, All-append, append_assoc, arith,
}
use ftps_qftp_server.Text.{Bytes}
use ftps_qftp_server.Text.Split.{split, split-append, Lacks}
use ftps_qftp_server.Driver.{FileInfo}
use ftps_qftp_server.Listing.{short}

abbrev pub IsOneLine : FileInfo → Type 0
IsOneLine f = Lacks b'\n' f.name

abbrev pub name_line : FileInfo → Bytes
name_line f = f.name ++ b'\r' ∷ []

name_line-IsOneLine : (f : FileInfo) → IsOneLine f → Lacks b'\n' (name_line f)
name_line-IsOneLine f h =
    All-append (λ c. c ≢ b'\n') f.name (b'\r' ∷ []) h ((λ e. absurd (omega arith)), tt)

-- The short listing of files whose names hold no line feed, cut at the line feeds, is their names in
-- order, each followed by a carriage return, and an empty rest.
pub split-short :
    (files : List FileInfo)
    → All IsOneLine files
    → split (short files) b'\n' ≡ map name_line files ++ [] ∷ []
unfolding short
split-short [] h = unfold split in refl
split-short (f ∷ files) (hf, hs) = rw append_assoc (
    ap (λ t. split t b'\n') (sym (append_assoc f.name (b'\r' ∷ []) (b'\n' ∷ short files)))
    ∙ split-append (name_line f) (short files) b'\n' (name_line-IsOneLine f hf)
    ∙ ap (λ ls. name_line f ∷ ls) (split-short files hs))
