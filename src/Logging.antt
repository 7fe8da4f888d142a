-- ===== src/Logging.antt =====
-- logger.go: the lines that a `StdLogger` hands to Go's `log`.
use ftps_qftp_server.Prelude.{ℕ, ◌≡◌, ◌≢◌, ◌++◌, if◌then◌else◌}
use ftps_qftp_server.Text.{Bytes, codes, bytes_eq}
use ftps_qftp_server.Text.Equality.{bytes_eq-ne_false}
use ftps_qftp_server.Number.{format_nat}

-- `StdLogger.Print`.
unfoldable pub print : Bytes → Bytes → Bytes
unfolding codes
print session_id message = session_id ++ (codes "  " ++ message)

-- `StdLogger.PrintCommand`.
unfoldable pub print_command : Bytes → Bytes → Bytes → Bytes
unfolding codes bytes_eq
print_command session_id command params =
    if bytes_eq command (codes "PASS")
    then session_id ++ codes " > PASS ****"
    else session_id ++ (codes " > " ++ (command ++ (codes " " ++ params)))

-- `StdLogger.PrintResponse`.
unfoldable pub print_response : Bytes → ℕ → Bytes → Bytes
unfolding codes format_nat
print_response session_id code message =
    session_id ++ (codes " < " ++ (format_nat code ++ (codes " " ++ message)))

-- The line of a command that is not spelled "PASS" ends in its parameter, whatever it is.
pub print_command_shows :
    (session_id command params : Bytes)
    → command ≢ codes "PASS"
    → print_command session_id command params
      ≡ session_id ++ (codes " > " ++ (command ++ (codes " " ++ params)))
unfolding print_command
print_command_shows session_id command params h = rw (bytes_eq-ne_false command (codes "PASS") h)
