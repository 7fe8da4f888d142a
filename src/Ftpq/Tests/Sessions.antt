-- ===== src/Ftpq/Tests/Sessions.antt =====
-- Sessions and accept loops on concrete inputs.
use ftps_qftp_server.Prelude.{◌≡◌, refl, inl, true, false, none, List, [], ◌∷◌, ◌<◌}
use ftps_qftp_server.Prelude.Int.{pos}
use ftps_qftp_server.Driver.{ok, err}
use ftps_qftp_server.Text.{codes}
use ftps_qftp_server.Ftpq.State.{SubSession, tag, logged}
use ftps_qftp_server.Ftpq.Server.{new_conn, new_sub_conn}
use ftps_qftp_server.Ftpq.Commands.Control.{execute_quit}
use ftps_qftp_server.Ftpq.Dispatch.{end_of_input, terminate}
use ftps_qftp_server.Ftpq.Session.{
  SessionEnv, Member, serving, over, System, Round, aborted, started, held, accept_round,
  accept_driver, accept_control, start, enter, leave, accepts, turns, opened, IsReached, at_start,
  behind, input_ended, serve_input,
}
use ftps_qftp_server.Ftpq.Quiet.{closings}
use ftps_qftp_server.Ftpq.Fate.{count_open, loop_bit}
use ftps_qftp_server.Ftpq.Quitting.{Quits, execute_quit-Quits}
use ftps_qftp_server.Ftpq.Abandoned.{here, abandoned_stream}
use ftps_qftp_server.Ftps.Accepting.{
  Arrival, arrived, accept_failed, serve_listener, handled, connections, live_rounds, first_end,
  serve_listener_lem,
}
use ftps_qftp_server.Ftpq.Tests.{World, example_env, example_server, bob}

abbrev session_env : SessionEnv World
session_env = record {
  quic = example_env;
  new_driver = λ w. (ok tt, w);
  accept_stream = λ w. (ok 4, w);
}

abbrev system_of : Round World → System World
system_of (aborted y) = y
system_of (started stream y) = y
system_of (held y) = y

abbrev empty : System World
empty = opened example_server bob bob 0

-- A session with one sub-connection.
abbrev one : System World
one = system_of (accept_round session_env empty)

one-IsReached : IsReached session_env one
unfolding opened accept_round accept_driver accept_control start new_conn
one-IsReached = behind empty one (at_start example_server bob bob 0) (accepts empty one 4 refl refl)

abbrev first : Member
first = record { sub = new_sub_conn one.shared 4; progress = serving }

execute_quit-Quits_example :
    Quits one.shared.locked 0
      (loop_bit one.loop)
      (enter one first.sub)
      (execute_quit example_env [] (enter one first.sub))
unfolding opened accept_round accept_driver accept_control start new_conn new_sub_conn
execute_quit-Quits_example =
    execute_quit-Quits session_env one [] [] first [] one-IsReached refl refl refl

-- The same session when the stream has ended without QUIT.
abbrev at_end : SubSession World
at_end = record (enter one first.sub) {
  trace = logged (tag first.sub) (codes "Stream Terminated") ∷ one.trace;
}

abbrev left : System World
left = leave one [] [] over at_end

left-IsReached : IsReached session_env left
unfolding opened accept_round accept_driver accept_control start new_conn new_sub_conn serve_input
    end_of_input terminate
left-IsReached =
    behind one left one-IsReached
      (turns one [] [] first (input_ended none) at_end refl refl refl refl)

abandoned_stream_example :
    (left.shared.running_sub_conn ≡ pos (count_open left.members))
    × ((0 < count_open left.members) × (closings left.trace ≡ loop_bit left.loop))
unfolding opened accept_round accept_driver accept_control start new_conn new_sub_conn
abandoned_stream_example =
    abandoned_stream session_env left left left-IsReached (inl (inl (refl, refl))) here

abbrev rounds : List Arrival
rounds =
    arrived 1 (ok tt)
    ∷ accept_failed bob true false
    ∷ arrived 2 (err bob)
    ∷ accept_failed bob true true
    ∷ []

serve_listener_lem_example :
    (handled (serve_listener rounds).events ≡ connections (live_rounds rounds))
    × ((serve_listener rounds).result ≡ first_end rounds)
serve_listener_lem_example = serve_listener_lem rounds
