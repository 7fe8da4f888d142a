-- ===== src/Ftps/Closing.antt =====
-- QUIT of ftps/cmd.go in the loop of `Conn.Serve` of ftps/conn.go: what closes a connection.
use ftps_qftp_server.Prelude.{◌≡◌, refl, true, Option, none, some, List, [], ◌∷◌}
use ftps_qftp_server.Text.{Bytes, codes, bytes_eq, to_upper}
use ftps_qftp_server.Ftps.State.{
  Socket, Event, single, wrote, print_response_event, print_command_event, print_event, closed_data,
  closed_control, Env, Session, done,
}
use ftps_qftp_server.Ftps.Connection.{
  write_message, parse_line, close, close_if_open, close_data_conn,
}
use ftps_qftp_server.Ftps.Commands.{lookup_command, commands}
use ftps_qftp_server.Ftps.Commands.Control.{command_quit, execute_quit}
use ftps_qftp_server.Ftps.Dispatch.{
  run_command, run_found, dispatch, receive_line, terminate, serve_lines,
}

abbrev pub quit_word : Bytes
quit_word = b'Q' ∷ b'U' ∷ b'I' ∷ b'T' ∷ []

-- The data connection, if there is one, is closed.
abbrev pub closed_with : Option Socket → List Event → List Event
closed_with none trace = trace
closed_with (some socket) trace = closed_data socket ∷ trace

-- The state of a connection behind a QUIT that was spelled and had a parameter as given.
abbrev pub behind_quit : {W : Type 0} → Session W → Bytes × Bytes → Session W
behind_quit s (word, param) = record {
  conn = record s.conn { closed = true; data_conn = none };
  world = s.world;
  trace =
      print_event s.session_id (codes "Connection Terminated")
      ∷ closed_control
      ∷ closed_with s.data_conn (
          closed_control
          ∷ wrote (single 221 (codes "Goodbye"))
          ∷ print_response_event s.session_id 221 (codes "Goodbye")
          ∷ print_command_event s.session_id word param
          ∷ s.trace);
}

module _ {W : Type 0} (env : Env W) where
  quit_found : lookup_command quit_word (commands env) ≡ some command_quit
  unfolding lookup_command commands codes bytes_eq
  quit_found = refl

  quit_lem :
      (line : Bytes) (rest : List Bytes) (failure : Option Bytes) (s : Session W)
      (data_conn : Option Socket)
      → s.data_conn ≡ data_conn
      → to_upper env.unicode_upper (parse_line line).0 ≡ quit_word
      → serve_lines env (line ∷ rest) failure s ≡ done tt (behind_quit s (parse_line line))
  unfolding serve_lines receive_line dispatch run_found run_command command_quit execute_quit
      write_message close close_if_open close_data_conn terminate
  quit_lem line rest failure s none e h = rw (h, quit_found, e) refl
  quit_lem line rest failure s (some socket) e h = rw (h, quit_found, e) refl

  -- A line with the command QUIT, in any spelling that ToUpper turns into it and with any parameter,
  -- ends the loop, whatever lines come behind it: 221 is replied, the control connection is closed, then
  -- the data connection that the connection holds, once, if it holds one, and the control connection a
  -- second time. No data connection is left, and nothing else is done.
  pub quit_closes :
      (line : Bytes) (rest : List Bytes) (failure : Option Bytes) (s : Session W)
      → to_upper env.unicode_upper (parse_line line).0 ≡ quit_word
      → serve_lines env (line ∷ rest) failure s ≡ done tt (behind_quit s (parse_line line))
  quit_closes line rest failure s h = quit_lem line rest failure s s.data_conn refl h
