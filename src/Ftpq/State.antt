-- ===== src/Ftpq/State.antt =====
-- The state of a sub-connection and of its session: `SubConn` of ftpq/subConn.go, `Conn` of ftpq/conn.go.
use ftps_qftp_server.Prelude.{ℕ, Bool, List, ◌∷◌, ◌++◌}
use ftps_qftp_server.Prelude.Int.{ℤ}
use ftps_qftp_server.Text.{Bytes, codes}
use ftps_qftp_server.Number.{format_nat}
use ftps_qftp_server.Driver.{Result, Reader, Driver, DriverCall}
use ftps_qftp_server.Ftps.State.{Reply, Fault, Copied}

-- A `quic.StreamID`, an unsigned number of 64 bits. A stream is known by its number in its session.
abbrev pub StreamId : Type 0
StreamId = ℕ

-- The options of the server that a sub-connection reads.
pub record QuicServer : Type 0 where
  pub public_ip : Bytes
  pub welcome_message : Bytes
  pub feats : Bytes

-- `Conn`, which the sub-connections of a session share. `locked` says that `structAccessMutex` is held
-- for good: by the last sub-connection, or by one that waits for ever. Whoever else holds it releases it
-- at the end of its call, so that a lock that waits for it is granted.
pub record QuicConn : Type 0 where
  pub data_receive_streams : List StreamId
  pub locked : Bool
  pub server : QuicServer
  pub session_id : Bytes
  pub local_addr : Bytes
  pub running_sub_conn : ℤ

-- `SubConn`; `stream_id` is `controlStream.StreamID()`.
pub record SubConn : Type 0 where
  pub stream_id : StreamId
  pub session_id : Bytes
  pub req_user : Bytes
  pub user : Bytes
  pub rename_from : Bytes
  pub last_file_pos : ℤ
  pub append_data : Bool
  pub closed : Bool
  pub name_prefix : Bytes

-- The name under which a sub-connection logs.
unfoldable pub log_tag : Bytes → StreamId → Bytes
unfolding codes format_nat
log_tag session_id stream_id = session_id ++ (codes ":" ++ format_nat stream_id)

abbrev pub tag : SubConn → Bytes
tag c = log_tag c.session_id c.stream_id

-- What a sub-connection does, in order, as in the package `ftps`.
pub data SubEvent : Type 0 where
  logged_command : Bytes → Bytes → Bytes → SubEvent
  logged_response : Bytes → ℕ → Bytes → SubEvent
  logged : Bytes → Bytes → SubEvent
  logged_format : Bytes → Bytes → List Bytes → SubEvent
  logged_globally : Bytes → SubEvent
  wrote_reply : Reply → SubEvent
  driver_called : DriverCall StreamId → SubEvent
  password_checked : Bytes → Bytes → Result Bool → SubEvent
  stream_opened stream_accepted stream_closed : StreamId → SubEvent
  stream_written : StreamId → Bytes → SubEvent
  stream_copied : StreamId → Reader → SubEvent
  reader_closed : Reader → SubEvent
  control_closed session_closed : SubEvent

-- What a call that may block gives: its result, or that it never returns.
pub data Awaited (A : Type 0) : Type 0 where
  answered : Result A → Awaited A
  never_answered : Awaited A

-- The QUIC session, which is a library's, and the Unicode tables of Go. `AcceptUniStream` waits until the
-- client opens a stream, and `OpenUniStreamSync` until it allows one more.
pub record QuicNetwork (W : Type 0) : Type 0 where
  pub open_uni_stream : W → Awaited StreamId × W
  pub accept_uni_stream : W → Awaited StreamId × W
  pub write_stream : StreamId → Bytes → W → W
  pub copy_stream : StreamId → Reader → W → Copied × W
  pub read_rest : W → W
  pub unicode_upper : Bytes → Bytes

pub record QuicEnv (W : Type 0) : Type 0 where
  pub driver : Driver StreamId W
  pub open driver use *
  pub network : QuicNetwork W
  pub open network use *

-- A sub-connection in its session and its world; the newest event stands first.
pub record SubSession (W : Type 0) : Type 0 where
  pub sub : SubConn
  pub open sub use *
  pub shared : QuicConn
  pub world : W
  pub trace : List SubEvent

-- An action ends with a value or by a panic, or it waits for ever: for a mutex that is held for good.
pub data SubOutcome (W A : Type 0) : Type 0 where
  finished : A → SubSession W → SubOutcome W A
  crashed : Fault → SubSession W → SubOutcome W A
  blocked : SubSession W → SubOutcome W A

abbrev pub Q : Type 0 → Type 0 → Type 0
Q W A = SubSession W → SubOutcome W A

infixl 5 ◌>>=◌ ◌>>◌
abbrev pub ◌>>=◌ : {W A B : Type 0} → Q W A → (A → Q W B) → Q W B
◌>>=◌ m f s = elim (m s) [
  | finished a s' ↦ f a s'
  | crashed fault s' ↦ crashed fault s'
  | blocked s' ↦ blocked s'
]

abbrev pub ◌>>◌ : {W A B : Type 0} → Q W A → Q W B → Q W B
◌>>◌ m k = m >>= λ _. k

module _ {W : Type 0} where
  abbrev pub pure : {A : Type 0} → A → Q W A
  pure a s = finished a s

  abbrev pub raise : {A : Type 0} → Fault → Q W A
  raise fault s = crashed fault s

  abbrev pub wait : {A : Type 0} → Q W A
  wait s = blocked s

  abbrev pub gets : {A : Type 0} → (SubConn → A) → Q W A
  gets f s = finished (f s.sub) s

  abbrev pub gets_shared : {A : Type 0} → (QuicConn → A) → Q W A
  gets_shared f s = finished (f s.shared) s

  abbrev pub modify : (SubConn → SubConn) → Q W Unit
  modify f s = finished tt (record s { sub = f s.sub })

  abbrev pub modify_shared : (QuicConn → QuicConn) → Q W Unit
  modify_shared f s = finished tt (record s { shared = f s.shared })

  abbrev pub emit : SubEvent → Q W Unit
  emit e s = finished tt (record s { trace = e ∷ s.trace })

  -- A call outside, with the event that records it.
  abbrev pub call : {A : Type 0} → SubEvent → (W → A × W) → Q W A
  call e f s = finished (f s.world).0 (record s { world = (f s.world).1; trace = e ∷ s.trace })

  abbrev pub ask : {A : Type 0} → (W → A × W) → Q W A
  ask f s = finished (f s.world).0 (record s { world = (f s.world).1 })

  -- Go's `defer`; what waits for ever does not come to it.
  abbrev pub with_defer : (SubSession W → SubSession W) → Q W Unit → Q W Unit
  with_defer deferred m s = elim (m s) [
    | finished a s' ↦ finished a (deferred s')
    | crashed fault s' ↦ crashed fault (deferred s')
    | blocked s' ↦ blocked s'
  ]

-- The interface `Command` of ftpq/cmd.go.
pub record SubCommand (W : Type 0) : Type 0 where
  pub is_extend : Bool
  pub require_param : Bool
  pub require_auth : Bool
  pub execute : Bytes → Q W Unit
