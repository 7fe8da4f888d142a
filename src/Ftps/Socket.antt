-- ===== src/Ftps/Socket.antt =====
-- ftps/socket.go: opening an active and a passive data connection.
use ftps_qftp_server.Prelude.{
  ℕ, zero, suc, Bool, true, false, ◌||◌, ◌&&◌, Option, none, some, List, [], ◌∷◌, ◌++◌, ◌==◌,
  if◌then◌else◌,
}
use ftps_qftp_server.Prelude.Int.{ℤ, pos}
use ftps_qftp_server.Text.{Bytes, codes}
use ftps_qftp_server.Text.Split.{split}
use ftps_qftp_server.Number.{format_int, parse_int, Status, fine, out_of_range}
use ftps_qftp_server.Driver.{ok, err}
use ftps_qftp_server.Ftps.State.{
  Transport, tcp, tls_over, TlsConfig, Socket, print_event, opened, syscall_errno, NetError,
  op_error, other_error, listening, listen_error, Env, M, ◌>>=◌, ◌>>◌, pure, gets, emit, ask,
}
use ftps_qftp_server.Ftps.Connection.{passive_port}

-- `net.JoinHostPort`: a host with a colon, as of IPv6, is bracketed.
unfoldable pub has_colon : Bytes → Bool
has_colon [] = false
has_colon (c ∷ s) = c == b':' || has_colon s

unfoldable pub join_host_port : Bytes → Bytes → Bytes
unfolding has_colon
join_host_port host port =
    if has_colon host then b'[' ∷ (host ++ b']' ∷ b':' ∷ port) else host ++ b':' ∷ port

-- The last part of a split, which has one.
unfoldable pub last_part : List Bytes → Bytes
last_part [] = []
last_part (p ∷ []) = p
last_part (p ∷ q ∷ ps) = last_part (q ∷ ps)

unfoldable pub error_text : NetError → Bytes
error_text (op_error cause text) = text
error_text (other_error text) = text

-- The text of an error of `Atoi`, for a text of printable bytes.
unfoldable pub atoi_error : Bytes → Status → Bytes
unfolding codes
atoi_error s out_of_range =
    codes "strconv.Atoi: parsing \"" ++ (s ++ codes "\": value out of range")
atoi_error s _ = codes "strconv.Atoi: parsing \"" ++ (s ++ codes "\": invalid syntax")

-- What `GoListenAndServe` leaves: a socket that listens, or an error.
pub data Bound : Type 0 where
  bound : Socket → Bound
  bind_error : NetError → Bound

-- `tls.NewListener(listener, socket.tlsConfig)` if the socket is a secure one.
unfoldable pub wrap_listener : Bool → Option TlsConfig → ℕ → Transport
wrap_listener true config h = tls_over h config
wrap_listener false config h = tcp h

module _ {W : Type 0} where
  -- The port of a listener's address, which `Atoi` reads.
  unfoldable pub take_port : Bytes → Bool → ℕ → Bytes → ℤ × Status → M W Bound
  unfolding atoi_error wrap_listener
  take_port host secure h part (n, fine) = do
    config ← gets (λ c. c.tls_config)
    let socket : Socket = record {
      transport = wrap_listener secure config h;
      host = host;
      port = n;
      passive = true;
      secure = secure;
    }
    emit (opened socket)
    pure (bound socket)
  take_port host secure h part (n, status) = do
    sid ← gets (λ c. c.session_id)
    emit (print_event sid (atoi_error part status))
    pure (bind_error (other_error (atoi_error part status)))

module _ {W : Type 0} (env : Env W) where
  -- `newActiveSocket`.
  unfoldable pub new_active_socket : Bytes → ℤ → M W (Option Socket)
  unfolding join_host_port format_int codes
  new_active_socket remote port = do
    sid ← gets (λ c. c.session_id)
    let connect_to = join_host_port remote (format_int port)
    emit (print_event sid (codes "Opening active data connection to " ++ connect_to))
    r ← ask (env.dial connect_to)
    elim r [
      | ok h ↦ do
        let socket : Socket = record {
          transport = tcp h;
          host = remote;
          port = port;
          passive = false;
          secure = false;
        }
        emit (opened socket)
        pure (some socket)
      | err e ↦ do emit (print_event sid e); pure none
    ]

  -- `isErrorAddressAlreadyInUse`.
  unfoldable pub is_error_address_already_in_use : NetError → Bool
  is_error_address_already_in_use (op_error (syscall_errno n) text) =
      n == env.address_in_use || (env.is_windows && n == 10048)
  is_error_address_already_in_use _ = false

  -- `ftpPassiveSocket.GoListenAndServe` up to the start of the goroutine that accepts.
  unfoldable pub go_listen_and_serve : Bytes → ℤ → Bool → M W Bound
  unfolding take_port split last_part parse_int error_text
  go_listen_and_serve host port secure = do
    sid ← gets (λ c. c.session_id)
    r ← ask (env.listen port)
    elim r [
      | listen_error e ↦ do emit (print_event sid (error_text e)); pure (bind_error e)
      | listening h address ↦ do
        let part = last_part (split address b':')
        take_port host secure h part (parse_int part)
    ]

  -- Whether the loop of `newPassiveSocket` goes on: another port may be free.
  unfoldable pub is_retried : ℤ → NetError → Bool
  unfolding is_error_address_already_in_use
  is_retried (pos zero) e = false
  is_retried port e = is_error_address_already_in_use e

  -- The end of a round: another one, or the result.
  unfoldable pub end_round : M W Bound → ℤ → Bound → M W Bound
  unfolding is_retried
  end_round again port (bound socket) = pure (bound socket)
  end_round again port (bind_error e) = if is_retried port e then again else pure (bind_error e)

  -- The loop of `newPassiveSocket`; the number counts the rounds behind this one.
  unfoldable pub listen_rounds : ℕ → Bytes → Bool → M W Bound
  unfolding go_listen_and_serve end_round passive_port
  listen_rounds zero host secure = do port ← passive_port env; go_listen_and_serve host port secure
  listen_rounds (suc n) host secure = do
    let again = listen_rounds n host secure
    port ← passive_port env
    r ← go_listen_and_serve host port secure
    end_round again port r

  -- `newPassiveSocket`, with its 10 rounds.
  unfoldable pub new_passive_socket : Bytes → Bool → M W Bound
  unfolding listen_rounds
  new_passive_socket = listen_rounds 9
