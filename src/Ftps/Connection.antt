-- ===== src/Ftps/Connection.antt =====
-- ftps/conn.go: the methods of `Conn` that the commands use.
use ftps_qftp_server.Prelude.{
  zero, suc, ℕ, Bool, true, not, ◌||◌, ◌&&◌, Option, none, some, List, [], ◌∷◌, ◌++◌, length, ◌==◌,
  if◌then◌else◌,
}
use ftps_qftp_server.Prelude.Int.{ℤ, pos, negsuc, wrap64, ◌-ℤ◌, ◌+ℤ◌}
use ftps_qftp_server.Text.{Bytes, codes, bytes_eq}
use ftps_qftp_server.Text.Scan.{trim, trim_space, replace}
use ftps_qftp_server.Text.Split.{split, split_two}
use ftps_qftp_server.FilePath.{slash, clean, starts_with_slash}
use ftps_qftp_server.FilePath.Slashes.{one_slash, two_slashes}
use ftps_qftp_server.Number.{format_nat, format_int, parse_int}
use ftps_qftp_server.Driver.{ok, err, Reader}
use ftps_qftp_server.Ftps.State.{
  Socket, Conn, Reply, single, multiline, print_response_event, print_event, log_event, wrote,
  upgraded, closed_data, data_written, data_copied, closed_control, Copied, copied, copy_error,
  copy_panic, Env, nil_dereference, invalid_argument, M, ◌>>=◌, ◌>>◌, pure, raise, gets, modify,
  emit, call, ask,
}

-- `Conn.IsLogin`.
unfoldable pub is_login : Conn → Bool
unfolding bytes_eq
is_login c = not (bytes_eq c.user [])

-- `Conn.passiveListenIP`.
unfoldable pub passive_listen_ip : Conn → Bytes
unfolding bytes_eq
passive_listen_ip c =
    if not (bytes_eq c.server.public_ip []) then c.server.public_ip else c.local_addr

-- `Conn.parseLine`: the command word and its parameter.
unfoldable pub is_line_end : ℕ → Bool
is_line_end c = c == b'\r' || c == b'\n'

unfoldable pub command_and_param : List Bytes → Bytes × Bytes
command_and_param [] = ([], [])
command_and_param (command ∷ []) = (command, [])
command_and_param (command ∷ param ∷ _) = (command, trim_space param)

unfoldable pub parse_line : Bytes → Bytes × Bytes
unfolding is_line_end command_and_param
parse_line line = command_and_param (split_two (trim is_line_end line) b' ')

-- `Conn.buildPath`.
unfoldable pub uncleaned_path : Conn → Bytes → Bytes
unfolding starts_with_slash bytes_eq codes
uncleaned_path c filename =
    if starts_with_slash filename
    then filename
    else if not (bytes_eq filename []) && not (bytes_eq filename (codes "-a"))
    then c.name_prefix ++ slash ∷ filename
    else c.name_prefix

unfoldable pub build_path : Conn → Bytes → Bytes
unfolding uncleaned_path
build_path c filename =
    replace (replace (clean (uncleaned_path c filename)) two_slashes one_slash) one_slash one_slash

-- The bytes of an answer, as `writeMessage` and `writeMessageMultiline` format it.
unfoldable pub reply_line : Reply → Bytes
unfolding codes format_nat
reply_line (single code message) = format_nat code ++ (codes " " ++ (message ++ codes "\r\n"))
reply_line (multiline code message) =
    format_nat code
    ++ (codes "-" ++ (message ++ (codes "\r\n" ++ (format_nat code ++ codes " END\r\n"))))

unfoldable pub sent_message : Bytes → Bytes
unfolding codes
sent_message count = codes "Closing data connection, sent " ++ (count ++ codes " bytes")

module _ {W : Type 0} where
  unfoldable pub write_message : ℕ → Bytes → M W Unit
  write_message code message = do
    sid ← gets (λ c. c.session_id)
    emit (print_response_event sid code message)
    emit (wrote (single code message))

  unfoldable pub write_message_multiline : ℕ → Bytes → M W Unit
  write_message_multiline code message = do
    sid ← gets (λ c. c.session_id)
    emit (print_response_event sid code message)
    emit (wrote (multiline code message))

  -- `conn.dataConn.Close()` and `conn.dataConn = nil`, on a connection that may have none: a call on
  -- nil panics.
  unfoldable pub close_data_conn : Option Socket → M W Unit
  close_data_conn none = raise nil_dereference
  close_data_conn (some socket) = do
    emit (closed_data socket)
    modify (λ c. record c { data_conn = none })

  unfoldable pub close_if_open : Option Socket → M W Unit
  unfolding close_data_conn
  close_if_open none = pure tt
  close_if_open (some socket) = close_data_conn (some socket)

  -- `Conn.Close`.
  unfoldable pub close : M W Unit
  unfolding close_if_open
  close = do
    emit closed_control
    modify (λ c. record c { closed = true })
    data_conn ← gets (λ c. c.data_conn)
    close_if_open data_conn

  -- The end of `sendOutofBandDataWriter`, behind the copy.
  unfoldable pub end_copying : Option Socket → Copied → M W (Option Bytes)
  unfolding close_data_conn write_message sent_message format_int
  end_copying data_conn (copied n) = do
    write_message 226 (sent_message (format_int n))
    close_data_conn data_conn
    pure none
  end_copying data_conn (copy_error e) = do close_data_conn data_conn; pure (some e)
  end_copying data_conn copy_panic = raise nil_dereference

module _ {W : Type 0} (env : Env W) where
  -- `minPort + mrand.Intn(size)`; `Intn` panics unless its bound is positive.
  unfoldable pub draw_port : ℤ → ℤ → M W ℤ
  unfolding wrap64 ◌+ℤ◌
  draw_port min_port (negsuc n) = raise invalid_argument
  draw_port min_port (pos zero) = raise invalid_argument
  draw_port min_port (pos (suc n)) = do
    k ← ask (env.intn (suc n))
    pure (wrap64 (min_port +ℤ pos k))

  -- The two ends of the range, where there are two.
  unfoldable pub port_in_range : List Bytes → M W ℤ
  unfolding draw_port trim_space parse_int codes wrap64 ◌-ℤ◌
  port_in_range (low ∷ high ∷ []) =
      let min_port = (parse_int (trim_space low)).0 in
      let max_port = (parse_int (trim_space high)).0 in
      draw_port min_port (wrap64 (max_port -ℤ min_port))
  port_in_range _ = do emit (log_event (codes "empty port")); pure (pos 0)

  -- `Conn.PassivePort`; 0 lets the system choose.
  unfoldable pub passive_port : M W ℤ
  unfolding port_in_range split bytes_eq
  passive_port = do
    ports ← gets (λ c. c.server.passive_ports)
    if bytes_eq ports [] then pure (pos 0) else port_in_range (split ports b'-')

  -- `Conn.upgradeToTLS`: the error of the handshake, if any.
  unfoldable pub upgrade_to_tls : M W (Option Bytes)
  unfolding codes
  upgrade_to_tls = do
    sid ← gets (λ c. c.session_id)
    emit (print_event sid (codes "Upgrading connectiion to TLS"))
    r ← ask env.handshake
    elim r [
      | ok _ ↦ do emit upgraded; modify (λ c. record c { tls = true }); pure none
      | err e ↦ pure (some e)
    ]

  -- The write of `sendOutofbandData`, if there is a data connection.
  unfoldable pub write_out : Bytes → Option Socket → M W Unit
  unfolding close_data_conn
  write_out bytes none = pure tt
  write_out bytes (some socket) = do
    emit (data_written socket bytes)
    ask (λ w. (tt, env.write_data socket bytes w))
    close_data_conn (some socket)

  -- `Conn.sendOutofbandData`.
  unfoldable pub send_outofband_data : Bytes → M W Unit
  unfolding write_out write_message sent_message
  send_outofband_data bytes = do
    data_conn ← gets (λ c. c.data_conn)
    write_out bytes data_conn
    write_message 226 (sent_message (format_nat (length bytes)))

  -- `Conn.sendOutofBandDataWriter`: the error of the copy, if any.
  unfoldable pub send_outofband_data_writer : Reader → M W (Option Bytes)
  unfolding end_copying
  send_outofband_data_writer reader = do
    modify (λ c. record c { last_file_pos = pos 0 })
    data_conn ← gets (λ c. c.data_conn)
    r ← call (data_copied data_conn reader) (env.copy_data data_conn reader)
    end_copying data_conn r
