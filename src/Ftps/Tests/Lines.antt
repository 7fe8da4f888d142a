-- ===== src/Ftps/Tests/Lines.antt =====
-- Lines of a client, listings and passwords on concrete inputs.
use ftps_qftp_server.Text.{Bytes, codes, to_upper, is_ascii, upper_byte}
use ftps_qftp_server.Logging.{print_command}
use ftps_qftp_server.Ftps.Commands.Control.{execute_pass}
use ftps_qftp_server.Prelude.{◌≡◌, ◌≢◌, refl, true, false, some, none, [], ◌∷◌, ◌++◌, arith}
use ftps_qftp_server.Prelude.Int.{pos}
use ftps_qftp_server.Text.Scan.{
  trim, trim_space, skip_space, width, width_two, is_space, is_space_two, is_space_three,
}
use ftps_qftp_server.Text.Split.{Lacks, split_two}
use ftps_qftp_server.Listing.{crlf, short}
use ftps_qftp_server.Driver.{ok, FileInfo}
use ftps_qftp_server.Ftps.State.{tcp, print_command_event, Socket, Env, Session, done, ◌>>◌}
use ftps_qftp_server.Ftps.Connection.{parse_line, is_line_end}
use ftps_qftp_server.Ftps.Dispatch.{dispatch, receive_line, serve, serve_lines}
use ftps_qftp_server.Ftps.Commands.Transfer.{execute_nlst}
use ftps_qftp_server.Ftps.Commands.Ports.{execute_pasv, execute_epsv, data_connection_failed}
use ftps_qftp_server.Ftps.Invariant.{Post}
use ftps_qftp_server.Ftps.Lines.{IsUnbroken, parse_line_command}
use ftps_qftp_server.Ftps.LoginLines.{pass_shown, user_word, pass_word, login_lines}
use ftps_qftp_server.Ftps.Closing.{behind_quit, quit_closes}
use ftps_qftp_server.Ftps.User.{IsGenuine, serve-IsGenuine}
use ftps_qftp_server.Ftps.Transfers.{sent, nlst_sends, passive_without_port}
use ftps_qftp_server.Ftps.Tests.{World, example_env, example_server, new, lines, bob, secret, file}

bob-IsUnbroken : IsUnbroken bob
unfolding is_line_end
bob-IsUnbroken = (refl, (refl, tt))

secret-IsUnbroken : IsUnbroken secret
unfolding is_line_end
secret-IsUnbroken = (refl, (refl, tt))

bob-Lacks : Lacks b' ' bob
bob-Lacks = ((λ e. absurd (omega (arith, e))), ((λ e. absurd (omega (arith, e))), tt))

bob-Lacks_colon : Lacks b':' bob
bob-Lacks_colon = ((λ e. absurd (omega (arith, e))), ((λ e. absurd (omega (arith, e))), tt))

trim_bob : trim_space bob ≡ bob
unfolding trim_space skip_space width width_two is_space is_space_two is_space_three
trim_bob = refl

trim_secret : trim_space secret ≡ secret
unfolding trim_space skip_space width width_two is_space is_space_two is_space_three
trim_secret = refl

bob-ne : trim_space bob ≢ []
bob-ne = rw trim_bob (λ e. ground (arith, e))

secret-ne : trim_space secret ≢ []
secret-ne = rw trim_secret (λ e. ground (arith, e))

accepted : (example_env.check_passwd (trim_space bob) (trim_space secret) tt).0 ≡ ok true
accepted = rw trim_secret refl

parse_line_command_example : parse_line ((bob ++ b' ' ∷ secret) ++ crlf) ≡ (bob, trim_space secret)
parse_line_command_example =
    parse_line_command bob secret bob-Lacks bob-IsUnbroken secret-IsUnbroken

login_lines_example :
    Post
      (λ t. (t.user ≡ trim_space bob) × (t.req_user ≡ []))
      ((receive_line example_env ((user_word ++ b' ' ∷ bob) ++ crlf)
          >> receive_line example_env ((pass_word ++ b' ' ∷ secret) ++ crlf))
        new)
login_lines_example =
    login_lines example_env new bob secret bob-IsUnbroken secret-IsUnbroken bob-ne secret-ne
      accepted

serve-IsGenuine_example : Post (λ s. IsGenuine s.user s.trace) (serve example_env lines none new)
serve-IsGenuine_example = serve-IsGenuine example_env example_server none bob bob tt lines none

abbrev directory : FileInfo
directory = record {
  name = file;
  size = pos 0;
  is_dir = true;
  mode = file;
  owner = file;
  group = file;
  mod_time_listed = file;
  mod_time_stamp = file;
}

abbrev list_env : Env World
list_env = record example_env {
  driver = record example_env.driver {
    stat = λ path w. (ok (some directory), w);
    list_dir = λ path w. (ok (directory ∷ []), w);
  };
}

abbrev open_socket : Socket
open_socket = record {
  transport = tcp 1;
  host = bob;
  port = pos 20;
  passive = false;
  secure = false;
}

abbrev connected : Session World
connected = record new { conn = record new.conn { data_conn = some open_socket } }

-- The line "quit", with its line end.
abbrev quit_line : Bytes
quit_line = b'q' ∷ b'u' ∷ b'i' ∷ b't' ∷ crlf

quit_closes_example :
    serve_lines example_env (quit_line ∷ lines) none connected
    ≡ done tt (behind_quit connected (parse_line quit_line))
unfolding parse_line is_line_end to_upper is_ascii upper_byte trim split_two
quit_closes_example = quit_closes example_env quit_line lines none connected refl

nlst_sends_example :
    Post
      (λ t.
        (sent t.trace ≡ (open_socket, short (directory ∷ [])) ∷ sent connected.trace)
        × (t.data_conn ≡ none))
      (execute_nlst list_env file connected)
nlst_sends_example =
    nlst_sends list_env connected file directory (directory ∷ []) open_socket refl refl refl refl

abbrev behind_address : Session World
behind_address = record new {
  conn = record new.conn { server = record example_server { public_ip = bob } };
}

passive_without_port_example :
    (execute_pasv example_env [] behind_address ≡ data_connection_failed behind_address)
    × (execute_epsv example_env [] behind_address ≡ data_connection_failed behind_address)
passive_without_port_example =
    passive_without_port example_env [] behind_address (λ e. ground (arith, e)) bob-Lacks_colon

abbrev small_pass : Bytes
small_pass = b'p' ∷ b'a' ∷ b's' ∷ b's' ∷ []

small_pass-upper : to_upper example_env.unicode_upper small_pass ≡ pass_word
unfolding to_upper is_ascii upper_byte
small_pass-upper = refl

small_pass-ne : small_pass ≢ codes "PASS"
unfolding codes
small_pass-ne = λ e. ground (arith, e)

pass_shown_example :
    (dispatch example_env (small_pass, secret) new
      ≡ execute_pass example_env secret
          (record new { trace = print_command_event new.session_id small_pass secret ∷ new.trace }))
    × (print_command new.session_id small_pass secret
        ≡ new.session_id ++ (codes " > " ++ (small_pass ++ (codes " " ++ secret))))
pass_shown_example =
    pass_shown example_env new small_pass secret small_pass-upper small_pass-ne
      (λ e. ground (arith, e))
