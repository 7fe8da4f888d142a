-- ===== src/Ftps/Lines.antt =====
-- `Conn.parseLine` of ftps/conn.go reads the lines that a client sends.
use mathlib.Core.List.{reverse, reverse-append, reverse-reverse}
use ftps_qftp_server.Prelude.{◌≡◌, refl, false, [], ◌∷◌, ◌++◌, All, All-append, ℕ}
use ftps_qftp_server.Text.{Bytes}
use ftps_qftp_server.Text.Scan.{trim, trim_left, trim_space}
use ftps_qftp_server.Text.Split.{Lacks, split_two-append, split_two_lacking}
use ftps_qftp_server.Ftps.Connection.{is_line_end, command_and_param, parse_line}
use ftps_qftp_server.Ftps.Opening.{All-reverse}
use ftps_qftp_server.Listing.{crlf}

-- A text without a carriage return and without a line feed.
abbrev pub IsUnbroken : Bytes → Type 0
IsUnbroken = All (λ c. is_line_end c ≡ false)

trim_left_none : (s : Bytes) → IsUnbroken s → trim_left is_line_end s ≡ s
unfolding trim_left
trim_left_none [] h = refl
trim_left_none (c ∷ s) (hc, h) = rw hc refl

trim_left_crlf : (s : Bytes) → trim_left is_line_end (b'\n' ∷ b'\r' ∷ s) ≡ trim_left is_line_end s
unfolding trim_left is_line_end
trim_left_crlf s = refl

trim_front : (c : ℕ) (s : Bytes) → is_line_end c ≡ false → trim_left is_line_end (c ∷ s) ≡ c ∷ s
unfolding trim_left
trim_front c s h = rw h refl

trim_line : (s : Bytes) → IsUnbroken s → trim is_line_end (s ++ crlf) ≡ s
unfolding trim
trim_line [] h = unfold trim_left is_line_end in refl
trim_line (c ∷ s) (hc, h) =
    rw
      (
        trim_front c (s ++ crlf) hc,
        reverse-append (c ∷ s) crlf,
        trim_left_crlf (reverse (c ∷ s)),
        trim_left_none (reverse (c ∷ s)) (All-reverse (λ d. is_line_end d ≡ false) (c ∷ s) (hc, h)),
      )
      (reverse-reverse (c ∷ s))

-- A line of a command, a space, a parameter and the end of a line is read as the command and the
-- parameter without the white space around it, if the command holds no space and neither of them a
-- carriage return or a line feed.
pub parse_line_command :
    (command param : Bytes)
    → Lacks b' ' command
    → IsUnbroken command
    → IsUnbroken param
    → parse_line ((command ++ b' ' ∷ param) ++ crlf) ≡ (command, trim_space param)
unfolding parse_line command_and_param
parse_line_command command param h hc hp =
    rw
      (
        trim_line (command ++ b' ' ∷ param) (
            All-append (λ c. is_line_end c ≡ false) command (b' ' ∷ param) hc
              (unfold is_line_end in refl, hp)),
        split_two-append command param b' ' h,
      )
      refl

-- A line of a command alone is read as the command with an empty parameter.
pub parse_line_alone :
    (command : Bytes)
    → Lacks b' ' command
    → IsUnbroken command
    → parse_line (command ++ crlf) ≡ (command, [])
unfolding parse_line command_and_param
parse_line_alone command h hc = rw (trim_line command hc, split_two_lacking command b' ' h) refl
