-- ===== src/Ftps/Dispatch.antt =====
-- ftps/conn.go: `Conn.receiveLine`, which runs one command, and the loop `Conn.Serve`.
use ftps_qftp_server.Prelude.{◌&&◌, Option, none, some, List, [], ◌∷◌, ◌++◌, if◌then◌else◌}
use ftps_qftp_server.Text.{Bytes, codes, bytes_eq, to_upper}
use ftps_qftp_server.Ftps.State.{
  print_command_event, print_event, Env, M, ◌>>=◌, ◌>>◌, gets, emit, Command,
}
use ftps_qftp_server.Ftps.Connection.{parse_line, write_message, close}
use ftps_qftp_server.Ftps.Commands.{lookup_command, commands}

module _ {W : Type 0} where
  -- The tests on a command that is known, with the user of the connection.
  unfoldable pub run_command : Command W → Bytes → Bytes → M W Unit
  unfolding write_message codes bytes_eq
  run_command command param user =
      if command.require_param && bytes_eq param []
      then write_message 553 (codes "action aborted, required param missing")
      else if command.require_auth && bytes_eq user []
      then write_message 530 (codes "not logged in")
      else command.execute param

  unfoldable pub run_found : Option (Command W) → Bytes → M W Unit
  unfolding run_command write_message codes
  run_found none param = write_message 502 (codes "Command not found")
  run_found (some command) param = do user ← gets (λ c. c.user); run_command command param user

  -- The end of `Conn.Serve`.
  unfoldable pub terminate : M W Unit
  unfolding close codes
  terminate = do
    close
    sid ← gets (λ c. c.session_id)
    emit (print_event sid (codes "Connection Terminated"))

  -- The end of the input: `io.EOF`, or a read error, which is logged.
  unfoldable pub end_of_input : Option Bytes → M W Unit
  unfolding terminate codes
  end_of_input none = terminate
  end_of_input (some e) = do
    sid ← gets (λ c. c.session_id)
    emit (print_event sid (codes "read error:" ++ e))
    terminate

module _ {W : Type 0} (env : Env W) where
  unfoldable pub dispatch : Bytes × Bytes → M W Unit
  unfolding run_found to_upper
  dispatch (command, param) = do
    sid ← gets (λ c. c.session_id)
    emit (print_command_event sid command param)
    run_found (lookup_command (to_upper env.unicode_upper command) (commands env)) param

  -- `Conn.receiveLine`.
  unfoldable pub receive_line : Bytes → M W Unit
  unfolding dispatch parse_line
  receive_line line = dispatch (parse_line line)

  -- The loop of `Conn.Serve` over the lines that the client sends before its input ends.
  unfoldable pub serve_lines : List Bytes → Option Bytes → M W Unit
  unfolding receive_line terminate end_of_input
  serve_lines [] failure = end_of_input failure
  serve_lines (line ∷ lines) failure = do
    let rest = serve_lines lines failure
    receive_line line
    closed ← gets (λ c. c.closed)
    if closed then terminate else rest

  -- `Conn.Serve`.
  unfoldable pub serve : List Bytes → Option Bytes → M W Unit
  unfolding serve_lines write_message codes
  serve lines failure = do
    sid ← gets (λ c. c.session_id)
    emit (print_event sid (codes "Connection Established"))
    welcome ← gets (λ c. c.server.welcome_message)
    write_message 220 welcome
    serve_lines lines failure
