-- ===== src/Ftpq/Dispatch.antt =====
-- ftpq/subConn.go: `SubConn.receiveLine`, which runs one command, and the loop `SubConn.Serve`.
use ftps_qftp_server.Prelude.{◌&&◌, Option, none, some, List, [], ◌∷◌, ◌++◌, if◌then◌else◌}
use ftps_qftp_server.Text.{Bytes, codes, bytes_eq, to_upper}
use ftps_qftp_server.Ftpq.State.{
  tag, logged_command, logged, QuicEnv, Q, ◌>>=◌, ◌>>◌, gets, emit, SubCommand,
}
use ftps_qftp_server.Ftpq.SubConn.{parse_line, write_message}
use ftps_qftp_server.Ftpq.Commands.{lookup_command, commands}

module _ {W : Type 0} where
  -- The tests on a command that is known, with the user of the sub-connection.
  unfoldable pub run_command : SubCommand W → Bytes → Bytes → Q W Unit
  unfolding write_message codes bytes_eq
  run_command command param user =
      if command.require_param && bytes_eq param []
      then write_message 553 (codes "action aborted, required param missing")
      else if command.require_auth && bytes_eq user []
      then write_message 530 (codes "not logged in")
      else command.execute param

  unfoldable pub run_found : Option (SubCommand W) → Bytes → Q W Unit
  unfolding run_command write_message codes
  run_found none param = write_message 502 (codes "Command not found")
  run_found (some command) param = do user ← gets (λ c. c.user); run_command command param user

  -- The end of `SubConn.Serve`: the control stream is not closed, and the session is not told.
  unfoldable pub terminate : Q W Unit
  unfolding codes
  terminate = do name ← gets tag; emit (logged name (codes "Stream Terminated"))

  -- The end of the input: `io.EOF`, or a read error, which is logged.
  unfoldable pub end_of_input : Option Bytes → Q W Unit
  unfolding terminate codes
  end_of_input none = terminate
  end_of_input (some e) = do
    name ← gets tag
    emit (logged name (codes "read error:" ++ e))
    terminate

module _ {W : Type 0} (env : QuicEnv W) where
  unfoldable pub dispatch : Bytes × Bytes → Q W Unit
  unfolding run_found to_upper
  dispatch (command, param) = do
    name ← gets tag
    emit (logged_command name command param)
    run_found (lookup_command (to_upper env.unicode_upper command) (commands env)) param

  -- `SubConn.receiveLine`.
  unfoldable pub receive_line : Bytes → Q W Unit
  unfolding dispatch parse_line
  receive_line line = dispatch (parse_line line)

  -- `SubConn.Serve`, over the lines that the client sends before its input ends.
  unfoldable pub serve : List Bytes → Option Bytes → Q W Unit
  unfolding receive_line terminate end_of_input
  serve [] failure = end_of_input failure
  serve (line ∷ lines) failure = do
    let rest = serve lines failure
    receive_line line
    closed ← gets (λ c. c.closed)
    if closed then terminate else rest
