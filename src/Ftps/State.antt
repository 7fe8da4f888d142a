-- ===== src/Ftps/State.antt =====
-- The state of a control connection: `Conn` of ftps/conn.go and what it does to the world outside.
use ftps_qftp_server.Prelude.{ℕ, Bool, Option, List, ◌∷◌}
use ftps_qftp_server.Prelude.Int.{ℤ}
use ftps_qftp_server.Text.{Bytes}
use ftps_qftp_server.Driver.{Result, Reader, Driver, DriverCall}

pub record TlsConfig : Type 0 where
  pub cert_file : Bytes
  pub key_file : Bytes

-- A connection or a listener of the operating system, which the number stands for: plain TCP, or
-- wrapped in TLS with a configuration, by `tls.NewListener`.
pub data Transport : Type 0 where
  tcp : ℕ → Transport
  tls_over : ℕ → Option TlsConfig → Transport

-- A `DataSocket`: an `ftpActiveSocket`, or an `ftpPassiveSocket` with its flag `secure`.
pub record Socket : Type 0 where
  pub transport : Transport
  pub host : Bytes
  pub port : ℤ
  pub passive : Bool
  pub secure : Bool

pub data ProtectionLevel : Type 0 where
  data_connection_clear data_connection_protected : ProtectionLevel

-- The options of the server that a connection reads through `conn.server`.
pub record Server : Type 0 where
  pub public_ip : Bytes
  pub passive_ports : Bytes
  pub welcome_message : Bytes
  pub feats : Bytes

pub record Conn : Type 0 where
  pub local_addr : Bytes
  pub data_conn : Option Socket
  pub server : Server
  pub tls_config : Option TlsConfig
  pub session_id : Bytes
  pub name_prefix : Bytes
  pub req_user : Bytes
  pub user : Bytes
  pub rename_from : Bytes
  pub last_file_pos : ℤ
  pub append_data : Bool
  pub closed : Bool
  pub tls : Bool
  pub protocol_buffer_size : ℤ
  pub data_connection_protection : ProtectionLevel

-- An answer on the control connection: `writeMessage`, `writeMessageMultiline`.
pub data Reply : Type 0 where
  single multiline : ℕ → Bytes → Reply

-- What a connection does, in order: the calls of its logger, of its driver and of its auth, what it
-- writes, and the sockets and readers that it opens and closes.
pub data Event : Type 0 where
  print_command_event : Bytes → Bytes → Bytes → Event
  print_response_event : Bytes → ℕ → Bytes → Event
  print_event : Bytes → Bytes → Event
  printf_event : Bytes → Bytes → List Bytes → Event
  log_event : Bytes → Event
  wrote : Reply → Event
  called : DriverCall Socket → Event
  checked_passwd : Bytes → Bytes → Result Bool → Event
  upgraded : Event
  opened closed_data : Socket → Event
  data_written : Socket → Bytes → Event
  data_copied : Option Socket → Reader → Event
  closed_reader : Reader → Event
  closed_control : Event

-- The errors of a listening socket that `isErrorAddressAlreadyInUse` tells apart, by the nesting of
-- their types; `text` is `err.Error()`.
pub data NetCause : Type 0 where
  syscall_errno : ℕ → NetCause
  other_cause : NetCause

pub data NetError : Type 0 where
  op_error : NetCause → Bytes → NetError
  other_error : Bytes → NetError

-- `net.ListenTCP` with its deadline: the listener, and the text of its address.
pub data Listened : Type 0 where
  listening : ℕ → Bytes → Listened
  listen_error : NetError → Listened

-- `io.Copy` between a reader and a socket, which is nil if no data connection is open.
pub data Copied : Type 0 where
  copied : ℤ → Copied
  copy_error : Bytes → Copied
  copy_panic : Copied

-- The network, the random numbers and the Unicode tables, which are Go's and not the repository's.
pub record Network (W : Type 0) : Type 0 where
  pub dial : Bytes → W → Result ℕ × W
  pub listen : ℤ → W → Listened × W
  pub handshake : W → Result (Unit {0}) × W
  pub write_data : Socket → Bytes → W → W
  pub copy_data : Option Socket → Reader → W → Copied × W
  pub intn : ℕ → W → ℕ × W
  pub address_in_use : ℕ
  pub is_windows : Bool
  pub unicode_upper : Bytes → Bytes

pub record Env (W : Type 0) : Type 0 where
  pub driver : Driver Socket W
  pub open driver use *
  pub network : Network W
  pub open network use *

-- A connection in its world; the newest event stands first.
pub record Session (W : Type 0) : Type 0 where
  pub conn : Conn
  pub open conn use *
  pub world : W
  pub trace : List Event

-- A run-time panic of Go. No handler recovers from it, so it ends the whole server.
pub data Fault : Type 0 where
  index_out_of_range nil_dereference invalid_argument : Fault

pub data Outcome (W A : Type 0) : Type 0 where
  done : A → Session W → Outcome W A
  panic : Fault → Session W → Outcome W A

abbrev pub M : Type 0 → Type 0 → Type 0
M W A = Session W → Outcome W A

infixl 5 ◌>>=◌ ◌>>◌
abbrev pub ◌>>=◌ : {W A B : Type 0} → M W A → (A → M W B) → M W B
◌>>=◌ m f s = elim (m s) [ done a s' ↦ f a s' | panic fault s' ↦ panic fault s' ]

abbrev pub ◌>>◌ : {W A B : Type 0} → M W A → M W B → M W B
◌>>◌ m k = m >>= λ _. k

module _ {W : Type 0} where
  abbrev pub pure : {A : Type 0} → A → M W A
  pure a s = done a s

  abbrev pub raise : {A : Type 0} → Fault → M W A
  raise fault s = panic fault s

  abbrev pub gets : {A : Type 0} → (Conn → A) → M W A
  gets f s = done (f s.conn) s

  abbrev pub modify : (Conn → Conn) → M W Unit
  modify f s = done tt (record s { conn = f s.conn })

  abbrev pub emit : Event → M W Unit
  emit e s = done tt (record s { trace = e ∷ s.trace })

  -- A call outside, with the event that records it.
  abbrev pub call : {A : Type 0} → Event → (W → A × W) → M W A
  call e f s = done (f s.world).0 (record s { world = (f s.world).1; trace = e ∷ s.trace })

  -- A call outside that leaves no event.
  abbrev pub ask : {A : Type 0} → (W → A × W) → M W A
  ask f s = done (f s.world).0 (record s { world = (f s.world).1 })

  -- Go's `defer`: what is deferred runs also when the function panics.
  abbrev pub with_defer : (Session W → Session W) → M W Unit → M W Unit
  with_defer deferred m s = elim (m s) [
    | done a s' ↦ done a (deferred s')
    | panic fault s' ↦ panic fault (deferred s')
  ]

-- The interface `Command` of ftps/cmd.go.
pub record Command (W : Type 0) : Type 0 where
  pub is_extend : Bool
  pub require_param : Bool
  pub require_auth : Bool
  pub execute : Bytes → M W Unit
