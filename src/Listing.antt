-- ===== src/Listing.antt =====
-- listformatter.go: the text of a directory listing.
pub mod Lines
pub mod Columns
mod Tests
use ftps_qftp_server.Prelude.{
  ℕ, ◌-◌, ◌≡◌, refl, List, [], ◌∷◌, ◌++◌, length, take, replicate, ltb, ◌==◌, if◌then◌else◌,
}
use ftps_qftp_server.Prelude.Int.{pos}
use ftps_qftp_server.Text.{Bytes, codes}
use ftps_qftp_server.Number.{format_int}
use ftps_qftp_server.Driver.{FileInfo}

abbrev pub crlf : Bytes
crlf = b'\r' ∷ b'\n' ∷ []

-- `ListFormatter.Short`.
unfoldable pub short : List FileInfo → Bytes
short [] = []
short (file ∷ files) = (file.name ++ crlf) ++ short files

-- Go's `input[0:length]` and `strings.Repeat(" ", length-len(input))`.
unfoldable pub lpad : Bytes → ℕ → Bytes
lpad input n =
    if ltb (length input) n
    then replicate (n - length input) b' ' ++ input
    else if length input == n
    then input
    else take n input

-- One line of `Detailed`. The three texts that the code hands to `Fprintf` as a format hold no `%`.
unfoldable pub detailed_line : FileInfo → Bytes
unfolding lpad codes
detailed_line file =
    file.mode
    ++ (codes " 1 "
        ++ (file.owner ++ (b' ' ∷ (file.group ++ (b' ' ∷ []))))
        ++ (lpad (format_int file.size) 12 ++ (file.mod_time_listed ++ (file.name ++ crlf))))

-- `ListFormatter.Detailed`.
unfoldable pub detailed : List FileInfo → Bytes
unfolding detailed_line
detailed [] = []
detailed (file ∷ files) = detailed_line file ++ detailed files
