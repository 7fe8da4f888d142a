-- ===== src/Ftps/Security.antt =====
-- ftps/socket.go and ftps/cmd.go: which data connections are protected.
use ftps_qftp_server.Prelude.{
  ℕ, zero, suc, ◌≡◌, refl, Bool, true, false, Option, none, some, List, [], ◌∷◌, ◌++◌, Bool-cases,
  ◌⊎◌, inl, inr,
}
use ftps_qftp_server.Prelude.Int.{ℤ}
use ftps_qftp_server.Text.{Bytes}
use ftps_qftp_server.Text.Split.{split}
use ftps_qftp_server.Number.{Status, fine, bad_syntax, out_of_range, parse_int, format_int}
use ftps_qftp_server.Driver.{Result-cases}
use ftps_qftp_server.Ftps.State.{
  TlsConfig, Transport, tcp, tls_over, Socket, NetError, listening, listen_error, Listened, Env,
  Session, Outcome, done, panic, M, ◌>>=◌,
}
use ftps_qftp_server.Ftps.Connection.{write_message, passive_port}
use ftps_qftp_server.Ftps.Socket.{
  Bound, bound, bind_error, wrap_listener, take_port, go_listen_and_serve, end_round, listen_rounds,
  is_retried, last_part, join_host_port, new_passive_socket, new_active_socket,
}
use ftps_qftp_server.Ftps.Invariant.{Post}
use ftps_qftp_server.Ftps.Commands.Ports.{
  data_connection_failed, execute_port, connect_port, answer_active, port_of_parts,
}

-- TLS over the listener with the given configuration if it was asked for, and plain TCP if not.
abbrev pub IsWrapped : Bool → Option TlsConfig → Transport → Type 0
IsWrapped true config (tls_over h used) = used ≡ config
IsWrapped true config (tcp h) = ⊥
IsWrapped false config (tcp h) = Unit
IsWrapped false config (tls_over h used) = ⊥

wrap_listener-IsWrapped :
    (secure : Bool) (config : Option TlsConfig) (h : ℕ)
    → IsWrapped secure config (wrap_listener secure config h)
unfolding wrap_listener
wrap_listener-IsWrapped true config h = refl
wrap_listener-IsWrapped false config h = tt

-- A passive socket for the host, whose listener has TLS with the configuration of the connection if
-- that was asked for, where a socket was opened.
abbrev pub IsAsked : {W : Type 0} → Bytes → Bool → Outcome W Bound → Type 0
IsAsked host secure (done (bound socket) s) =
    (socket.passive ≡ true)
    × ((socket.host ≡ host) × IsWrapped secure s.tls_config socket.transport)
IsAsked host secure (done (bind_error e) s) = Unit
IsAsked host secure (panic fault s) = Unit

Listened-cases :
    (l : Listened)
    → ((h : ℕ) × (address : Bytes) × (l ≡ listening h address))
      ⊎ ((e : NetError) × (l ≡ listen_error e))
Listened-cases (listening h address) = inl (h, address, refl)
Listened-cases (listen_error e) = inr (e, refl)

module _ {W : Type 0} (host : Bytes) (secure : Bool) where
  take_port-IsAsked :
      (h : ℕ) (part : Bytes) (r : ℤ × Status) (s : Session W)
      → IsAsked host secure (take_port host secure h part r s)
  unfolding take_port
  take_port-IsAsked h part (n, fine) s =
      (refl, (refl, wrap_listener-IsWrapped secure s.tls_config h))
  take_port-IsAsked h part (n, bad_syntax) s = tt
  take_port-IsAsked h part (n, out_of_range) s = tt

  then-IsAsked :
      {A : Type 0} (m : Outcome W A) (f : A → M W Bound)
      → ((a : A) (s : Session W) → IsAsked host secure (f a s))
      → IsAsked host secure (elim m [ done a s' ↦ f a s' | panic fault s' ↦ panic fault s' ])
  then-IsAsked (done a s) f h = h a s
  then-IsAsked (panic fault s) f h = tt

  after_round :
      (env : Env W) (again : M W Bound) (port : ℤ) (o : Outcome W Bound)
      → ((s : Session W) → IsAsked host secure (again s))
      → IsAsked host secure o
      → IsAsked host secure
          (elim o [ done r s' ↦ end_round env again port r s' | panic fault s' ↦ panic fault s' ])
  unfolding end_round
  after_round env again port (done (bound socket) s) k h = h
  after_round env again port (done (bind_error e) s) k h =
      elim (Bool-cases (is_retried env port e)) [ inl b ↦ rw b (k s) | inr b ↦ rw b tt ]
  after_round env again port (panic fault s) k h = tt

  module _ (env : Env W) where
    go_listen-IsAsked :
        (port : ℤ) (s : Session W)
        → IsAsked host secure (go_listen_and_serve env host port secure s)
    unfolding go_listen_and_serve
    go_listen-IsAsked port s = elim (Listened-cases (env.listen port s.world).0) [
      | inl (h, address, e) ↦ rw e (
          take_port-IsAsked h (last_part (split address b':'))
            (parse_int (last_part (split address b':'))) _)
      | inr (x, e) ↦ rw e tt
    ]

    rounds-IsAsked :
        (n : ℕ) (s : Session W) → IsAsked host secure (listen_rounds env n host secure s)
    unfolding listen_rounds
    rounds-IsAsked zero s = then-IsAsked (passive_port env s) _ (λ port t. go_listen-IsAsked port t)
    rounds-IsAsked (suc n) s = then-IsAsked (passive_port env s) _ (λ port t.
        after_round env (listen_rounds env n host secure) port
          (go_listen_and_serve env host port secure t) (rounds-IsAsked n)
          (go_listen-IsAsked port t))

    -- The socket that `newPassiveSocket` opens, in whichever of its rounds, is a passive one for the
    -- host that was asked for. If TLS was asked for, its listener is one of TLS over the TCP listener,
    -- with the TLS configuration of the connection; if not, it is the TCP listener itself.
    pub passive-IsAsked :
        (s : Session W) → IsAsked host secure (new_passive_socket env host secure s)
    unfolding new_passive_socket
    passive-IsAsked s = rounds-IsAsked 9 s

-- There is a data connection, an active one without TLS.
abbrev pub IsClear : Option Socket → Type 0
IsClear none = ⊥
IsClear (some socket) =
    (socket.passive ≡ false) × ((socket.secure ≡ false) × IsWrapped false none socket.transport)

module _ {W : Type 0} (env : Env W) where
  active-IsClear :
      (host : Bytes) (port : ℤ) (s : Session W)
      → Post
          (λ t. (t.data_conn ≡ s.data_conn) ⊎ IsClear t.data_conn)
          ((new_active_socket env host port >>= answer_active port) s)
  unfolding new_active_socket answer_active data_connection_failed write_message
  active-IsClear host port s =
      elim (Result-cases (env.dial (join_host_port host (format_int port)) s.world).0) [
        | inl (h, e) ↦ rw e (inr (refl, (refl, tt)))
        | inr (x, e) ↦ rw e (inl refl)
      ]

  connect_port-IsClear :
      (parts : List Bytes) (s : Session W)
      → Post (λ t. (t.data_conn ≡ s.data_conn) ⊎ IsClear t.data_conn) (connect_port env parts s)
  unfolding connect_port
  connect_port-IsClear [] s = inl refl
  connect_port-IsClear (a ∷ []) s = inl refl
  connect_port-IsClear (a ∷ b ∷ []) s = inl refl
  connect_port-IsClear (a ∷ b ∷ c ∷ []) s = inl refl
  connect_port-IsClear (a ∷ b ∷ c ∷ d ∷ []) s = inl refl
  connect_port-IsClear (a ∷ b ∷ c ∷ d ∷ e ∷ []) s = inl refl
  connect_port-IsClear (a ∷ b ∷ c ∷ d ∷ one ∷ two ∷ r) s =
      active-IsClear (a ++ b'.' ∷ (b ++ b'.' ∷ (c ++ b'.' ∷ d))) (port_of_parts one two) s

  -- PORT leaves the data connection as it was or opens one over plain TCP, also where the client has
  -- asked for protected data connections.
  pub port-IsClear :
      (param : Bytes) (s : Session W)
      → Post (λ t. (t.data_conn ≡ s.data_conn) ⊎ IsClear t.data_conn) (execute_port env param s)
  unfolding execute_port
  port-IsClear param s = connect_port-IsClear (split param b',') s
