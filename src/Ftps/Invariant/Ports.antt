-- ===== src/Ftps/Invariant/Ports.antt =====
-- The commands of Commands/Ports keep every invariant of a connection that confines its paths.
use Prim.Native.Nat.{zero, suc}
use ftps_qftp_server.Prelude.{ℕ, ◌≡◌, refl, inl, inr, Bool, Option, none, some, List, [], ◌∷◌, ◌++◌}
use ftps_qftp_server.Prelude.Int.{ℤ, pos, negsuc}
use ftps_qftp_server.Text.{Bytes, bytes_eq}
use ftps_qftp_server.Text.Split.{split}
use ftps_qftp_server.Number.{format_int, parse_int, Status, fine, bad_syntax, out_of_range}
use ftps_qftp_server.Driver.{Result-cases}
use ftps_qftp_server.Ftps.State.{Socket, Env, Session, M, Listened, listening, listen_error}
use ftps_qftp_server.Ftps.Connection.{passive_listen_ip, draw_port, port_in_range, passive_port}
use ftps_qftp_server.Ftps.Socket.{
  Bound, bound, bind_error, take_port, go_listen_and_serve, listen_rounds, new_passive_socket,
  new_active_socket, is_retried, end_round, join_host_port,
}
use ftps_qftp_server.Ftps.Commands.Ports.{
  is_known_family, is_protected, host_part, port_of_parts, data_connection_failed, answer_active,
  answer_pasv, connect_eprt, execute_eprt, listen_epsv, answer_host_epsv, execute_epsv, listen_pasv,
  answer_host_pasv, enter_epsv, enter_pasv, execute_pasv, connect_port, execute_port,
}
use ftps_qftp_server.Ftps.Invariant.{Invariant, PathInvariant, Post}
use ftps_qftp_server.Ftps.Invariant.Rules.{Keeps, write_message-Keeps, if-Keeps, bind-Keeps}

module _ {W : Type 0} {I : Session W → Type 0} (inv : Invariant I) where
  take_port-Keeps :
      (host : Bytes) (secure : Bool) (h : ℕ) (part : Bytes) (n : ℤ) (status : Status)
      → Keeps I (take_port host secure h part (n, status))
  unfolding take_port
  take_port-Keeps host secure h part n fine = record { at = λ s i. inv.quiet _ _ tt i }
  take_port-Keeps host secure h part n bad_syntax = record { at = λ s i. inv.quiet _ _ tt i }
  take_port-Keeps host secure h part n out_of_range = record { at = λ s i. inv.quiet _ _ tt i }

module _ {W : Type 0} {I : Session W → Type 0} (inv : Invariant I) (env : Env W) where
  draw_port-Keeps : (min_port size : ℤ) → Keeps I (draw_port env min_port size)
  unfolding draw_port
  draw_port-Keeps min_port (negsuc n) = record { at = λ s h. h }
  draw_port-Keeps min_port (pos zero) = record { at = λ s h. h }
  draw_port-Keeps min_port (pos (suc n)) = record { at = λ s h. inv.moved _ _ h }

  port_in_range-Keeps : (ends : List Bytes) → Keeps I (port_in_range env ends)
  unfolding port_in_range
  port_in_range-Keeps [] = record { at = λ s h. inv.quiet _ _ tt h }
  port_in_range-Keeps (a ∷ []) = record { at = λ s h. inv.quiet _ _ tt h }
  port_in_range-Keeps (a ∷ b ∷ []) = draw_port-Keeps _ _
  port_in_range-Keeps (a ∷ b ∷ c ∷ r) = record { at = λ s h. inv.quiet _ _ tt h }

  passive_port-Keeps : Keeps I (passive_port env)
  unfolding passive_port
  passive_port-Keeps = record { at = answered }
    where
      answered : (s : Session W) → I s → Post I (passive_port env s)
      answered s h =
          (if-Keeps (bytes_eq s.server.passive_ports []) (record { at = λ t i. i })
              (port_in_range-Keeps (split s.server.passive_ports b'-'))).at
            s h

  listen-Keeps :
      (host : Bytes) (port : ℤ) (secure : Bool) → Keeps I (go_listen_and_serve env host port secure)
  unfolding go_listen_and_serve
  listen-Keeps host port secure = record { at = answered }
    where
      listened :
          (r : Listened) (s : Session W)
          → (env.listen port s.world).0 ≡ r
          → I s
          → Post I (go_listen_and_serve env host port secure s)
      listened (listen_error e) s q h = rw q (inv.quiet _ _ tt (inv.moved _ _ h))
      listened (listening k address) s q h = rw q (
          (take_port-Keeps inv host secure k _ _ _).at _
            (inv.moved _ (env.listen port s.world).1 h))

      answered : (s : Session W) → I s → Post I (go_listen_and_serve env host port secure s)
      answered s h = listened _ s refl h

  end_round-Keeps :
      (again : M W Bound) (port : ℤ)
      → Keeps I again
      → (r : Bound) → Keeps I (end_round env again port r)
  unfolding end_round
  end_round-Keeps again port k (bound socket) = record { at = λ s h. h }
  end_round-Keeps again port k (bind_error e) =
      if-Keeps (is_retried env port e) k (record { at = λ s h. h })

  listen_rounds-Keeps :
      (n : ℕ) (host : Bytes) (secure : Bool) → Keeps I (listen_rounds env n host secure)
  unfolding listen_rounds
  listen_rounds-Keeps zero host secure =
      bind-Keeps passive_port-Keeps (λ port. listen-Keeps host port secure)
  listen_rounds-Keeps (suc n) host secure =
      let again = listen_rounds-Keeps n host secure in
      bind-Keeps passive_port-Keeps
        (λ port. bind-Keeps (listen-Keeps host port secure) (end_round-Keeps _ port again))

  new_passive_socket-Keeps :
      (host : Bytes) (secure : Bool) → Keeps I (new_passive_socket env host secure)
  unfolding new_passive_socket
  new_passive_socket-Keeps host secure = listen_rounds-Keeps 9 host secure

  new_active_socket-Keeps : (host : Bytes) (port : ℤ) → Keeps I (new_active_socket env host port)
  unfolding new_active_socket
  new_active_socket-Keeps host port = record { at = answered }
    where
      answered : (s : Session W) → I s → Post I (new_active_socket env host port s)
      answered s h =
          elim (Result-cases (env.dial (join_host_port host (format_int port)) s.world).0) [
            | inl (k, e) ↦ rw e (inv.quiet _ _ tt (inv.moved _ _ (inv.quiet s _ tt h)))
            | inr (t, e) ↦ rw e (inv.quiet _ _ tt (inv.moved _ _ (inv.quiet s _ tt h)))
          ]

module _ {W : Type 0} {I : Session W → Type 0} (inv : PathInvariant I) where
  failed-Keeps : Keeps I data_connection_failed
  unfolding data_connection_failed
  failed-Keeps = write_message-Keeps inv.base _ _

  answer_active-Keeps : (port : ℤ) (socket : Option Socket) → Keeps I (answer_active port socket)
  unfolding answer_active
  answer_active-Keeps port none = write_message-Keeps inv.base _ _
  answer_active-Keeps port (some socket) = record {
    at = λ s h.
        (write_message-Keeps inv.base _ _).at _
          (inv.transferred s (some socket) s.last_file_pos s.append_data h);
  }

  answer_pasv-Keeps : (quads : List Bytes) (port : ℤ) → Keeps I (answer_pasv quads port)
  unfolding answer_pasv
  answer_pasv-Keeps [] port = record { at = λ s h. h }
  answer_pasv-Keeps (a ∷ []) port = record { at = λ s h. h }
  answer_pasv-Keeps (a ∷ b ∷ []) port = record { at = λ s h. h }
  answer_pasv-Keeps (a ∷ b ∷ c ∷ []) port = record { at = λ s h. h }
  answer_pasv-Keeps (a ∷ b ∷ c ∷ d ∷ r) port = write_message-Keeps inv.base _ _

  -- The connection takes a socket that listens.
  taken :
      (s : Session W) (socket : Socket)
      → I s
      → I (record s { conn = record s.conn { data_conn = some socket } })
  taken s socket h = inv.transferred s (some socket) s.last_file_pos s.append_data h

  enter_epsv-Keeps : (r : Bound) → Keeps I (enter_epsv r)
  unfolding enter_epsv
  enter_epsv-Keeps (bind_error e) = record { at = λ s h. failed-Keeps.at _ (inv.quiet _ _ tt h) }
  enter_epsv-Keeps (bound socket) = record {
    at = λ s h. (write_message-Keeps inv.base _ _).at _ (taken s socket h);
  }

  enter_pasv-Keeps : (host : Bytes) (r : Bound) → Keeps I (enter_pasv host r)
  unfolding enter_pasv
  enter_pasv-Keeps host (bind_error e) = failed-Keeps
  enter_pasv-Keeps host (bound socket) = record {
    at = λ s h. (answer_pasv-Keeps (split host b'.') socket.port).at _ (taken s socket h);
  }

module _ {W : Type 0} {I : Session W → Type 0} (inv : PathInvariant I) (env : Env W) where
  connect_eprt-Keeps : (parts : List Bytes) → Keeps I (connect_eprt env parts)
  unfolding connect_eprt
  connect_eprt-Keeps [] = record { at = λ s h. h }
  connect_eprt-Keeps (a ∷ []) = record { at = λ s h. h }
  connect_eprt-Keeps (a ∷ b ∷ []) = record { at = λ s h. h }
  connect_eprt-Keeps (a ∷ b ∷ c ∷ []) = record { at = λ s h. h }
  connect_eprt-Keeps (a ∷ family ∷ host ∷ port ∷ r) =
      if-Keeps (is_known_family (parse_int family).0)
        (bind-Keeps (new_active_socket-Keeps inv.base env host (parse_int port).0)
          (answer_active-Keeps inv (parse_int port).0))
        (write_message-Keeps inv.base _ _)

  pub eprt-Keeps : (param : Bytes) → Keeps I (execute_eprt env param)
  unfolding execute_eprt
  eprt-Keeps [] = record { at = λ s h. h }
  eprt-Keeps (delim ∷ param) = connect_eprt-Keeps (split (delim ∷ param) delim)

  connect_port-Keeps : (nums : List Bytes) → Keeps I (connect_port env nums)
  unfolding connect_port
  connect_port-Keeps [] = record { at = λ s h. h }
  connect_port-Keeps (a ∷ []) = record { at = λ s h. h }
  connect_port-Keeps (a ∷ b ∷ []) = record { at = λ s h. h }
  connect_port-Keeps (a ∷ b ∷ c ∷ []) = record { at = λ s h. h }
  connect_port-Keeps (a ∷ b ∷ c ∷ d ∷ []) = record { at = λ s h. h }
  connect_port-Keeps (a ∷ b ∷ c ∷ d ∷ e ∷ []) = record { at = λ s h. h }
  connect_port-Keeps (a ∷ b ∷ c ∷ d ∷ one ∷ two ∷ r) =
      bind-Keeps
        (new_active_socket-Keeps inv.base env (a ++ b'.' ∷ (b ++ b'.' ∷ (c ++ b'.' ∷ d)))
          (port_of_parts one two))
        (answer_active-Keeps inv (port_of_parts one two))

  pub port-Keeps : (param : Bytes) → Keeps I (execute_port env param)
  unfolding execute_port
  port-Keeps param = connect_port-Keeps (split param b',')

  listen_pasv-Keeps : (host : Bytes) → Keeps I (listen_pasv env host)
  unfolding listen_pasv
  listen_pasv-Keeps host = record {
    at = λ s h.
        (bind-Keeps
            (new_passive_socket-Keeps inv.base env host (is_protected s.data_connection_protection))
            (enter_pasv-Keeps inv host)).at
          s h;
  }

  answer_host_pasv-Keeps : (host : Option Bytes) → Keeps I (answer_host_pasv env host)
  unfolding answer_host_pasv
  answer_host_pasv-Keeps none = failed-Keeps inv
  answer_host_pasv-Keeps (some host) = listen_pasv-Keeps host

  pub pasv-Keeps : (param : Bytes) → Keeps I (execute_pasv env param)
  unfolding execute_pasv
  pasv-Keeps param = record {
    at = λ s h. (answer_host_pasv-Keeps (host_part (passive_listen_ip s.conn))).at s h;
  }

  listen_epsv-Keeps : (host : Bytes) → Keeps I (listen_epsv env host)
  unfolding listen_epsv
  listen_epsv-Keeps host = record {
    at = λ s h.
        (bind-Keeps
            (new_passive_socket-Keeps inv.base env host (is_protected s.data_connection_protection))
            (enter_epsv-Keeps inv)).at
          s h;
  }

  answer_host_epsv-Keeps : (host : Option Bytes) → Keeps I (answer_host_epsv env host)
  unfolding answer_host_epsv
  answer_host_epsv-Keeps none = failed-Keeps inv
  answer_host_epsv-Keeps (some host) = listen_epsv-Keeps host

  pub epsv-Keeps : (param : Bytes) → Keeps I (execute_epsv env param)
  unfolding execute_epsv
  epsv-Keeps param = record {
    at = λ s h. (answer_host_epsv-Keeps (host_part (passive_listen_ip s.conn))).at s h;
  }
