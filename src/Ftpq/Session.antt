-- ===== src/Ftpq/Session.antt =====
-- `Conn.Serve` of ftpq/conn.go with the goroutines that it starts: a session as a system of
-- sub-connections that take turns.
use ftps_qftp_server.Prelude.{
  ◌≡◌, Bool, true, false, Option, none, some, List, [], ◌∷◌, ◌++◌, if◌then◌else◌,
}
use ftps_qftp_server.Prelude.Int.{pos, ◌+ℤ◌}
use ftps_qftp_server.Text.{Bytes, codes, bytes_eq}
use ftps_qftp_server.Driver.{Result, ok, err}
use ftps_qftp_server.Ftpq.State.{
  StreamId, QuicServer, QuicConn, SubConn, SubEvent, logged, logged_format, session_closed, QuicEnv,
  SubSession, finished, blocked, Q, ◌>>=◌, ◌>>◌, gets, pure,
}
use ftps_qftp_server.Ftpq.Server.{new_conn, new_sub_conn}
use ftps_qftp_server.Ftpq.Dispatch.{receive_line, terminate, end_of_input}

-- What a session needs besides: `factory.NewDriver` and `session.AcceptStream`.
pub record SessionEnv (W : Type 0) : Type 0 where
  pub quic : QuicEnv W
  pub new_driver : W → Result (Unit {0}) × W
  pub accept_stream : W → Result StreamId × W

-- The goroutine of `Conn.Serve`: it accepts, it waits for the mutex for ever, or it has returned.
pub data Loop : Type 0 where
  accepting held_up returned : Loop

-- The goroutine of a sub-connection: its loop goes on, it has come to its end, or it waits for ever.
pub data Progress : Type 0 where
  serving over stuck : Progress

pub record Member : Type 0 where
  pub sub : SubConn
  pub progress : Progress

pub record System (W : Type 0) : Type 0 where
  pub shared : QuicConn
  pub members : List Member
  pub loop : Loop
  pub world : W
  pub trace : List SubEvent

-- A round of `Conn.Serve`. A sub-connection without a stream panics when it reads its first line.
pub data Round (W : Type 0) : Type 0 where
  aborted : System W → Round W
  started : Option StreamId → System W → Round W
  held : System W → Round W

abbrev pub new_member : QuicConn → Option StreamId → List Member
new_member conn none = []
new_member conn (some id) = record { sub = new_sub_conn conn id; progress = serving } ∷ []

module _ {W : Type 0} where
  -- `conn.Close()` behind a line of the log.
  unfoldable pub abort : SubEvent → System W → Round W
  abort line y = aborted (record y { loop = returned; trace = session_closed ∷ line ∷ y.trace })

  -- The end of a round, from `newSubConn` on.
  unfoldable pub start : Option StreamId → System W → Round W
  unfolding ◌+ℤ◌ new_sub_conn
  start stream y =
      if y.shared.locked
      then held (record y { loop = held_up })
      else started stream (record y {
        shared = record y.shared { running_sub_conn = y.shared.running_sub_conn +ℤ pos 1 };
        members = new_member y.shared stream ++ y.members;
      })

  -- A round from the answer of `AcceptStream` on: the error "NO_ERROR" is taken for a stream.
  unfoldable pub accept_control : Result StreamId → System W → Round W
  unfolding start abort bytes_eq codes
  accept_control (ok id) y = start (some id) y
  accept_control (err e) y =
      if bytes_eq e (codes "NO_ERROR")
      then start none y
      else abort
          (logged y.shared.session_id
            (codes "Error while accepting control stream, aborting client connection:" ++ e))
          y

  -- A round from the answer of `NewDriver` on.
  unfoldable pub accept_driver : SessionEnv W → Result (Unit {0}) → System W → Round W
  unfolding accept_control abort codes
  accept_driver env (err e) y =
      abort
        (logged_format y.shared.session_id
          (codes "Error creating driver, aborting client connection: %v") (e ∷ []))
        y
  accept_driver env (ok _) y =
      let r = env.accept_stream y.world in accept_control r.0 (record y { world = r.1 })

  unfoldable pub accept_round : SessionEnv W → System W → Round W
  unfolding accept_driver
  accept_round env y =
      let r = env.new_driver y.world in accept_driver env r.0 (record y { world = r.1 })

-- What a sub-connection reads: a line, or the end of its stream.
pub data Input : Type 0 where
  line_read : Bytes → Input
  input_ended : Option Bytes → Input

-- How the goroutine stands behind the round.
abbrev pub if_over : Bool → Progress
if_over true = over
if_over false = serving

abbrev pub progress_behind : Input → SubConn → Progress
progress_behind (line_read line) c = if_over c.closed
progress_behind (input_ended failure) c = over

module _ {W : Type 0} where
  -- A round of the loop of `SubConn.Serve`.
  unfoldable pub serve_input : QuicEnv W → Input → Q W Unit
  unfolding receive_line terminate end_of_input
  serve_input env (input_ended failure) = end_of_input failure
  serve_input env (line_read line) = do
    receive_line env line
    closed ← gets (λ c. c.closed)
    if closed then terminate else pure tt

  abbrev pub enter : System W → SubConn → SubSession W
  enter y c = record { sub = c; shared = y.shared; world = y.world; trace = y.trace }

  abbrev pub leave : System W → List Member → List Member → Progress → SubSession W → System W
  leave y before after progress t = record {
    shared = t.shared;
    members = before ++ record { sub = t.sub; progress = progress } ∷ after;
    loop = y.loop;
    world = t.world;
    trace = t.trace;
  }

-- The steps of a session, in any order: a round of `Conn.Serve`, or a round of one sub-connection, which
-- may wait for ever. A panic ends the process, and so the session has no step behind it.
pub data Step {W : Type 0} (env : SessionEnv W) : System W → System W → Type 0 where
  accepts :
      (y z : System W) (id : StreamId)
      → y.loop ≡ accepting
      → accept_round env y ≡ started (some id) z
      → Step env y z
  aborts : (y z : System W) → y.loop ≡ accepting → accept_round env y ≡ aborted z → Step env y z
  waits : (y z : System W) → y.loop ≡ accepting → accept_round env y ≡ held z → Step env y z
  turns :
      (y : System W) (before after : List Member) (m : Member) (input : Input) (t : SubSession W)
      → y.members ≡ before ++ m ∷ after
      → m.progress ≡ serving
      → m.sub.closed ≡ false
      → serve_input env.quic input (enter y m.sub) ≡ finished tt t
      → Step env y (leave y before after (progress_behind input t.sub) t)
  stalls :
      (y : System W) (before after : List Member) (m : Member) (input : Input) (t : SubSession W)
      → y.members ≡ before ++ m ∷ after
      → m.progress ≡ serving
      → m.sub.closed ≡ false
      → serve_input env.quic input (enter y m.sub) ≡ blocked t
      → Step env y (leave y before after stuck t)

-- A session that was just opened: `Conn.Serve` has written its first line of the log.
unfoldable pub opened : {W : Type 0} → QuicServer → Bytes → Bytes → W → System W
unfolding new_conn codes
opened server local_addr session_id w = record {
  shared = new_conn server local_addr session_id;
  members = [];
  loop = accepting;
  world = w;
  trace = logged session_id (codes "Connection Established") ∷ [];
}

-- The systems that a new session comes to.
pub data IsReached {W : Type 0} (env : SessionEnv W) : System W → Type 0 where
  at_start :
      (server : QuicServer) (local_addr session_id : Bytes) (w : W)
      → IsReached env (opened server local_addr session_id w)
  behind : (y z : System W) → IsReached env y → Step env y z → IsReached env z
