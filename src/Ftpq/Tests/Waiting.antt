-- ===== src/Ftpq/Tests/Waiting.antt =====
-- A session in which one sub-connection waits for a stream that its client never opens.
use ftps_qftp_server.Prelude.{[], ◌∷◌}
use ftps_qftp_server.Driver.{ok}
use ftps_qftp_server.Text.{Bytes}
use ftps_qftp_server.Ftpq.State.{SubSession, SubOutcome, finished, crashed, blocked, never_answered}
use ftps_qftp_server.Ftpq.Server.{new_sub_conn}
use ftps_qftp_server.Ftpq.Session.{
  SessionEnv, Member, serving, stuck, System, Round, aborted, started, held, accept_round, enter,
  leave, opened, line_read, serve_input,
}
use ftps_qftp_server.Ftpq.Tests.{World, example_env, example_server, bob}

-- The client opens no data stream.
abbrev silent_env : SessionEnv World
silent_env = record {
  quic = record example_env {
    network = record example_env.network { accept_uni_stream = λ w. (never_answered, w) };
  };
  new_driver = λ w. (ok tt, w);
  accept_stream = λ w. (ok 4, w);
}

abbrev system_of : Round World → System World
system_of (aborted y) = y
system_of (started stream y) = y
system_of (held y) = y

abbrev state_of : SubOutcome World Unit → SubSession World
state_of (finished a s) = s
state_of (crashed fault s) = s
state_of (blocked s) = s

abbrev empty : System World
empty = opened example_server bob bob 0

abbrev one : System World
one = system_of (accept_round silent_env empty)

abbrev two : System World
two = system_of (accept_round silent_env one)

abbrev fresh : Member
fresh = record { sub = new_sub_conn two.shared 4; progress = serving }

abbrev user_line : Bytes
user_line = b'U' ∷ b'S' ∷ b'E' ∷ b'R' ∷ b' ' ∷ b'b' ∷ []

abbrev pass_line : Bytes
pass_line = b'P' ∷ b'A' ∷ b'S' ∷ b'S' ∷ b' ' ∷ b's' ∷ []

abbrev stor_line : Bytes
stor_line = b'S' ∷ b'T' ∷ b'O' ∷ b'R' ∷ b' ' ∷ b'2' ∷ b' ' ∷ b'f' ∷ []

abbrev behind_user : SubSession World
behind_user = state_of (serve_input silent_env.quic (line_read user_line) (enter two fresh.sub))

abbrev named : System World
named = leave two (fresh ∷ []) [] serving behind_user

abbrev behind_pass : SubSession World
behind_pass =
    state_of (serve_input silent_env.quic (line_read pass_line) (enter named behind_user.sub))

abbrev logged_in : System World
logged_in = leave named (fresh ∷ []) [] serving behind_pass

abbrev behind_stor : SubSession World
behind_stor =
    state_of (serve_input silent_env.quic (line_read stor_line) (enter logged_in behind_pass.sub))

abbrev waiting : System World
waiting = leave logged_in (fresh ∷ []) [] stuck behind_stor
