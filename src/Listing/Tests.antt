-- ===== src/Listing/Tests.antt =====
-- Listings of concrete files.
use ftps_qftp_server.Prelude.{◌+◌, ◌*◌, ◌≡◌, refl, false, [], ◌∷◌, ◌++◌, map, length, arith}
use ftps_qftp_server.Prelude.Int.{pos}
use ftps_qftp_server.Text.{Bytes, codes}
use ftps_qftp_server.Text.Split.{split}
use ftps_qftp_server.Number.{format_int}
use ftps_qftp_server.Driver.{FileInfo}
use ftps_qftp_server.Listing.{short, lpad}
use ftps_qftp_server.Listing.Lines.{IsOneLine, name_line, split-short}
use ftps_qftp_server.Listing.Columns.{length-lpad, lpad_thirteen}

abbrev text : Bytes
text = b'a' ∷ []

abbrev one_file : FileInfo
one_file = record {
  name = text;
  size = pos 42;
  is_dir = false;
  mode = text;
  owner = text;
  group = text;
  mod_time_listed = text;
  mod_time_stamp = text;
}

lpad_size : lpad (format_int (pos 42)) 12 ≡ codes "          42"
unfolding lpad format_int codes
lpad_size = refl

one_file-IsOneLine : IsOneLine one_file
one_file-IsOneLine = ((λ e. absurd (omega (arith, e))), tt)

split-short_example :
    split (short (one_file ∷ one_file ∷ [])) b'\n'
    ≡ map name_line (one_file ∷ one_file ∷ []) ++ [] ∷ []
split-short_example =
    split-short (one_file ∷ one_file ∷ []) (one_file-IsOneLine, (one_file-IsOneLine, tt))

length-lpad_example : length (lpad text 12) ≡ 12
length-lpad_example = length-lpad text 12

lpad_thirteen_example :
    lpad (format_int (pos (200000000000 * 10 + 7))) 12 ≡ lpad (format_int (pos 200000000000)) 12
lpad_thirteen_example = lpad_thirteen 200000000000 7 (omega arith) (omega arith) (omega arith)
