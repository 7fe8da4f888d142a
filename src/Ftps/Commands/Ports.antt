-- ===== src/Ftps/Commands/Ports.antt =====
-- ftps/cmd.go: the commands that open a data connection.
use ftps_qftp_server.Prelude.{
  zero, suc, ◌/◌, Bool, true, false, ◌||◌, Option, none, some, List, [], ◌∷◌, ◌++◌, ◌==◌, take,
  if◌then◌else◌,
}
use ftps_qftp_server.Prelude.Int.{ℤ, pos, negsuc, wrap64, ◌*ℤ◌, ◌+ℤ◌, ◌-ℤ◌}
use ftps_qftp_server.Text.{Bytes, codes}
use ftps_qftp_server.Text.Scan.{last_index}
use ftps_qftp_server.Text.Split.{split}
use ftps_qftp_server.Number.{format_int, parse_int, negate}
use ftps_qftp_server.Ftps.State.{
  Socket, ProtectionLevel, data_connection_clear, data_connection_protected, log_event, Env,
  index_out_of_range, M, ◌>>=◌, ◌>>◌, raise, gets, modify, emit, Command,
}
use ftps_qftp_server.Ftps.Connection.{passive_listen_ip, write_message}
use ftps_qftp_server.Ftps.Socket.{
  Bound, bound, bind_error, error_text, new_active_socket, new_passive_socket,
}

-- The protocols of EPRT that the server knows: 1 and 2.
unfoldable pub is_known_family : ℤ → Bool
is_known_family (pos n) = n == 1 || n == 2
is_known_family (negsuc n) = false

-- `conn.dataConnectionProtection == DataConnectionProtected`.
unfoldable pub is_protected : ProtectionLevel → Bool
is_protected data_connection_clear = false
is_protected data_connection_protected = true

-- `addr[:lastIdx]` where the last colon stands behind the first byte.
unfoldable pub host_part : Bytes → Option Bytes
unfolding last_index
host_part addr = elim (last_index addr (b':' ∷ [])) [
  | none ↦ none
  | some zero ↦ none
  | some (suc i) ↦ some (take (suc i) addr)
]

-- Go's division, which rounds towards zero.
unfoldable pub quotient_256 : ℤ → ℤ
unfolding negate
quotient_256 (pos n) = pos (n / 256)
quotient_256 (negsuc n) = negate (suc n / 256)

-- The target of PASV: the four parts of the address and the two bytes of the port.
unfoldable pub pasv_target : Bytes → Bytes → Bytes → Bytes → ℤ → Bytes
unfolding quotient_256 format_int codes ◌-ℤ◌ ◌*ℤ◌
pasv_target a b c d port =
    let p1 = quotient_256 port in
    let p2 = port -ℤ p1 *ℤ pos 256 in
    b'('
    ∷ (a
        ++ b','
          ∷ (b
              ++ b','
                ∷ (c
                    ++ b','
                      ∷ (d ++ b',' ∷ (format_int p1 ++ b',' ∷ (format_int p2 ++ b')' ∷ []))))))

-- `(portOne * 256) + portTwo` in 64 bits; an error of `Atoi` is not looked at.
unfoldable pub port_of_parts : Bytes → Bytes → ℤ
unfolding parse_int wrap64 ◌*ℤ◌ ◌+ℤ◌
port_of_parts one two = wrap64 (wrap64 ((parse_int one).0 *ℤ pos 256) +ℤ (parse_int two).0)

module _ {W : Type 0} where
  unfoldable pub data_connection_failed : M W Unit
  unfolding write_message codes
  data_connection_failed = write_message 425 (codes "Data connection failed")

  unfoldable pub answer_active : ℤ → Option Socket → M W Unit
  unfolding write_message data_connection_failed format_int codes
  answer_active port none = data_connection_failed
  answer_active port (some socket) = do
    modify (λ c. record c { data_conn = some socket })
    write_message 200 (codes "Connection established (" ++ (format_int port ++ codes ")"))

  unfoldable pub answer_pasv : List Bytes → ℤ → M W Unit
  unfolding write_message pasv_target codes
  answer_pasv (a ∷ b ∷ c ∷ d ∷ _) port =
      write_message 227 (codes "Entering Passive Mode " ++ pasv_target a b c d port)
  answer_pasv _ port = raise index_out_of_range

  -- The end of EPSV and of PASV.
  unfoldable pub enter_epsv : Bound → M W Unit
  unfolding data_connection_failed write_message format_int codes error_text
  enter_epsv (bind_error e) = do emit (log_event (error_text e)); data_connection_failed
  enter_epsv (bound socket) = do
    modify (λ c. record c { data_conn = some socket })
    write_message 229
        (codes "Entering Extended Passive Mode (|||" ++ (format_int socket.port ++ codes "|)"))

  unfoldable pub enter_pasv : Bytes → Bound → M W Unit
  unfolding data_connection_failed answer_pasv split
  enter_pasv host (bind_error e) = data_connection_failed
  enter_pasv host (bound socket) = do
    modify (λ c. record c { data_conn = some socket })
    answer_pasv (split host b'.') socket.port

module _ {W : Type 0} (env : Env W) where
  unfoldable pub connect_eprt : List Bytes → M W Unit
  unfolding parse_int is_known_family new_active_socket answer_active write_message codes
  connect_eprt (_ ∷ family ∷ host ∷ port ∷ _) =
      let connect : M W Unit = (do
        socket ← new_active_socket env host (parse_int port).0
        answer_active (parse_int port).0 socket) in
      if is_known_family (parse_int family).0
      then connect
      else write_message 522 (codes "Network protocol not supported, use (1,2)")
  connect_eprt _ = raise index_out_of_range

  unfoldable pub execute_eprt : Bytes → M W Unit
  unfolding connect_eprt split
  execute_eprt [] = raise index_out_of_range
  execute_eprt (delim ∷ param) = connect_eprt (split (delim ∷ param) delim)

  unfoldable pub command_eprt : Command W
  command_eprt = record {
    is_extend = true;
    require_param = true;
    require_auth = true;
    execute = execute_eprt;
  }

  unfoldable pub listen_epsv : Bytes → M W Unit
  unfolding new_passive_socket is_protected enter_epsv
  listen_epsv host = do
    level ← gets (λ c. c.data_connection_protection)
    r ← new_passive_socket env host (is_protected level)
    enter_epsv r

  unfoldable pub answer_host_epsv : Option Bytes → M W Unit
  unfolding listen_epsv data_connection_failed
  answer_host_epsv none = data_connection_failed
  answer_host_epsv (some host) = listen_epsv host

  unfoldable pub execute_epsv : Bytes → M W Unit
  unfolding answer_host_epsv passive_listen_ip host_part
  execute_epsv param = do addr ← gets passive_listen_ip; answer_host_epsv (host_part addr)

  unfoldable pub command_epsv : Command W
  command_epsv = record {
    is_extend = true;
    require_param = false;
    require_auth = true;
    execute = execute_epsv;
  }

  unfoldable pub listen_pasv : Bytes → M W Unit
  unfolding new_passive_socket is_protected enter_pasv
  listen_pasv host = do
    level ← gets (λ c. c.data_connection_protection)
    r ← new_passive_socket env host (is_protected level)
    enter_pasv host r

  unfoldable pub answer_host_pasv : Option Bytes → M W Unit
  unfolding listen_pasv data_connection_failed
  answer_host_pasv none = data_connection_failed
  answer_host_pasv (some host) = listen_pasv host

  unfoldable pub execute_pasv : Bytes → M W Unit
  unfolding answer_host_pasv passive_listen_ip host_part
  execute_pasv param = do addr ← gets passive_listen_ip; answer_host_pasv (host_part addr)

  unfoldable pub command_pasv : Command W
  command_pasv = record {
    is_extend = false;
    require_param = false;
    require_auth = true;
    execute = execute_pasv;
  }

  unfoldable pub connect_port : List Bytes → M W Unit
  unfolding port_of_parts new_active_socket answer_active
  connect_port (a ∷ b ∷ c ∷ d ∷ one ∷ two ∷ _) = do
    let port = port_of_parts one two
    let host : Bytes = a ++ b'.' ∷ (b ++ b'.' ∷ (c ++ b'.' ∷ d))
    socket ← new_active_socket env host port
    answer_active port socket
  connect_port _ = raise index_out_of_range

  unfoldable pub execute_port : Bytes → M W Unit
  unfolding connect_port split
  execute_port param = connect_port (split param b',')

  unfoldable pub command_port : Command W
  command_port = record {
    is_extend = false;
    require_param = true;
    require_auth = true;
    execute = execute_port;
  }
