-- ===== src/Ftps/LoginLines.antt =====
-- The two lines by which a client logs in, from the bytes to the state of the connection.
use ftps_qftp_server.Prelude.{◌≡◌, ◌≢◌, refl, true, some, arith, [], ◌∷◌, ◌++◌}
use ftps_qftp_server.Text.{Bytes, codes, bytes_eq, to_upper, is_ascii, upper_byte}
use ftps_qftp_server.Text.Scan.{trim_space}
use ftps_qftp_server.Text.Equality.{bytes_eq-ne_false}
use ftps_qftp_server.Listing.{crlf}
use ftps_qftp_server.Logging.{print_command, print_command_shows}
use ftps_qftp_server.Driver.{ok}
use ftps_qftp_server.Ftps.State.{print_command_event, Env, Session, ◌>>◌}
use ftps_qftp_server.Ftps.Connection.{parse_line, is_line_end, write_message}
use ftps_qftp_server.Ftps.Commands.{lookup_command, commands}
use ftps_qftp_server.Ftps.Commands.Control.{execute_user, execute_pass, command_user, command_pass}
use ftps_qftp_server.Ftps.Dispatch.{run_command, run_found, dispatch, receive_line}
use ftps_qftp_server.Ftps.Invariant.{Post}
use ftps_qftp_server.Ftps.Lines.{IsUnbroken, parse_line_command}

abbrev pub user_word : Bytes
user_word = b'U' ∷ b'S' ∷ b'E' ∷ b'R' ∷ []

abbrev pub pass_word : Bytes
pass_word = b'P' ∷ b'A' ∷ b'S' ∷ b'S' ∷ []

module _ {W : Type 0} (env : Env W) where
  user_found :
      lookup_command (to_upper env.unicode_upper user_word) (commands env) ≡ some command_user
  unfolding lookup_command commands to_upper is_ascii upper_byte codes bytes_eq
  user_found = refl

  pass_found :
      lookup_command (to_upper env.unicode_upper pass_word) (commands env) ≡ some (command_pass env)
  unfolding lookup_command commands to_upper is_ascii upper_byte codes bytes_eq
  pass_found = refl

user_line :
    (name : Bytes)
    → IsUnbroken name
    → parse_line ((user_word ++ b' ' ∷ name) ++ crlf) ≡ (user_word, trim_space name)
unfolding is_line_end
user_line name h =
    parse_line_command user_word name
      (
        (λ e. absurd (omega (arith, e))),
        (
          (λ e. absurd (omega (arith, e))),
          ((λ e. absurd (omega (arith, e))), ((λ e. absurd (omega (arith, e))), tt)),
        ),
      )
      (refl, (refl, (refl, (refl, tt)))) h

pass_line :
    (pass : Bytes)
    → IsUnbroken pass
    → parse_line ((pass_word ++ b' ' ∷ pass) ++ crlf) ≡ (pass_word, trim_space pass)
unfolding is_line_end
pass_line pass h =
    parse_line_command pass_word pass
      (
        (λ e. absurd (omega (arith, e))),
        (
          (λ e. absurd (omega (arith, e))),
          ((λ e. absurd (omega (arith, e))), ((λ e. absurd (omega (arith, e))), tt)),
        ),
      )
      (refl, (refl, (refl, (refl, tt)))) h

module _ {W : Type 0} (env : Env W) (s : Session W) where
  -- The two lines USER and PASS, with a name and a password that are not only white space and hold no
  -- carriage return and no line feed, log in the name without the white space around it, if the auth
  -- accepts the password without the white space around it for that name.
  pub login_lines :
      (name pass : Bytes)
      → IsUnbroken name
      → IsUnbroken pass
      → trim_space name ≢ []
      → trim_space pass ≢ []
      → (env.check_passwd (trim_space name) (trim_space pass) s.world).0 ≡ ok true
      → Post
          (λ t. (t.user ≡ trim_space name) × (t.req_user ≡ []))
          ((receive_line env ((user_word ++ b' ' ∷ name) ++ crlf)
              >> receive_line env ((pass_word ++ b' ' ∷ pass) ++ crlf))
            s)
  unfolding receive_line dispatch run_found run_command command_user command_pass execute_user
      execute_pass write_message
  login_lines name pass hn hp nn np h =
      rw
        (
          user_line name hn,
          pass_line pass hp,
          user_found env,
          bytes_eq-ne_false (trim_space name) [] nn,
          pass_found env,
          bytes_eq-ne_false (trim_space pass) [] np,
          h,
        )
        (refl, refl)

module _ {W : Type 0} (env : Env W) (s : Session W) where
  -- A command word that ToUpper turns into PASS but that is not spelled so, with a parameter that is not
  -- empty, checks the password like PASS, behind an event for the logger whose line, with the standard
  -- logger, ends in the password.
  pub pass_shown :
      (word pass : Bytes)
      → to_upper env.unicode_upper word ≡ pass_word
      → word ≢ codes "PASS"
      → pass ≢ []
      → (dispatch env (word, pass) s
          ≡ execute_pass env pass
              (record s { trace = print_command_event s.session_id word pass ∷ s.trace }))
        × (print_command s.session_id word pass
            ≡ s.session_id ++ (codes " > " ++ (word ++ (codes " " ++ pass))))
  unfolding dispatch run_found run_command command_pass
  pass_shown word pass h ne np = (
    rw (h, pass_found env, bytes_eq-ne_false pass [] np) refl,
    print_command_shows s.session_id word pass ne,
  )
