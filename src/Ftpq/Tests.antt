-- ===== src/Ftpq/Tests.antt =====
-- A driver and a QUIC session in which the theorems are applied to concrete inputs.
mod Sessions
mod Storing
mod Waiting
use ftps_qftp_server.Prelude.{
  ℕ, suc, ◌<◌, ◌≤◌, ◌≡◌, refl, Bool, false, true, none, some, Option, List, [], ◌∷◌, inl, inr,
  arith, All,
}
use ftps_qftp_server.Prelude.Int.{pos}
use ftps_qftp_server.Text.{Bytes, codes, to_upper, is_ascii, upper_byte}
use ftps_qftp_server.Text.Scan.{trim}
use ftps_qftp_server.Text.Split.{split_two}
use ftps_qftp_server.Driver.{Result, ok, err}
use ftps_qftp_server.Ftps.State.{copied}
use ftps_qftp_server.Ftps.Confined.{IsConfinedEvent}
use ftps_qftp_server.Ftps.Login.{IsLoginFirst}
use ftps_qftp_server.Ftps.User.{IsGenuine}
use ftps_qftp_server.Ftps.Dispatch.{receive_line as ftps_receive_line}
use ftps_qftp_server.Ftpq.State.{StreamId, QuicServer, QuicConn, QuicEnv, SubSession, answered}
use ftps_qftp_server.Ftpq.SubConn.{parse_line, get_receive_data_stream}
use ftps_qftp_server.Ftpq.Dispatch.{receive_line, serve}
use ftps_qftp_server.Ftpq.Server.{new_conn, new_sub_session}
use ftps_qftp_server.Ftpq.View.{view, view_env, view_trace, IsAlike, SubPost}
use ftps_qftp_server.Ftpq.Alike.Lines.{receive_line-IsAlike}
use ftps_qftp_server.Ftpq.Safety.{sub_serve_confined, sub_serve-IsLoginFirst, sub_serve-IsGenuine}
use ftps_qftp_server.Ftpq.Streams.{IsFound, receive_stream-IsFound}

-- The number of the next stream that is accepted.
abbrev pub World : Type 0
World = ℕ

abbrev secret : Bytes
secret = b's' ∷ b'e' ∷ []

abbrev pub bob : Bytes
bob = b'b' ∷ b'o' ∷ []

abbrev check : Bytes → Result Bool
check [] = ok false
check (c ∷ pass) = ok true

-- Every call succeeds, and a password that is not empty is right.
abbrev pub example_env : QuicEnv World
example_env = record {
  driver = record {
    stat = λ path w. (ok none, w);
    change_dir = λ path w. (ok tt, w);
    list_dir = λ path w. (ok [], w);
    delete_dir = λ path w. (ok tt, w);
    delete_file = λ path w. (ok tt, w);
    rename = λ from to w. (ok tt, w);
    make_dir = λ path w. (ok tt, w);
    get_file = λ path offset w. (ok (pos 5, 0), w);
    put_file = λ path socket append w. (ok (pos 5), w);
    check_passwd = λ name pass w. (check pass, w);
  };
  network = record {
    open_uni_stream = λ w. (answered (ok 3), w);
    accept_uni_stream = λ w. (answered (ok w), suc w);
    write_stream = λ stream bytes w. w;
    copy_stream = λ stream reader w. (copied (pos 5), w);
    read_rest = λ w. w;
    unicode_upper = λ s. s;
  };
}

abbrev pub example_server : QuicServer
example_server = record { public_ip = []; welcome_message = bob; feats = [] }

abbrev pub example_conn : QuicConn
example_conn = new_conn example_server bob bob

abbrev pub new : SubSession World
new = new_sub_session example_conn 4 0

abbrev lines : List Bytes
lines =
    codes "USER bo\r\n"
    ∷ codes "PASS se\r\n"
    ∷ codes "CWD ../a\r\n"
    ∷ codes "STOR 2 x\r\n"
    ∷ codes "QUIT\r\n"
    ∷ []

sub_serve_confined_example :
    SubPost (λ s. All IsConfinedEvent (view_trace s.trace)) (serve example_env lines none new)
sub_serve_confined_example = sub_serve_confined example_env example_conn 4 0 lines none

sub_serve-IsLoginFirst_example :
    SubPost (λ s. IsLoginFirst (view_trace s.trace)) (serve example_env lines none new)
sub_serve-IsLoginFirst_example = sub_serve-IsLoginFirst example_env example_conn 4 0 lines none

sub_serve-IsGenuine_example :
    SubPost (λ s. IsGenuine s.user (view_trace s.trace)) (serve example_env lines none new)
sub_serve-IsGenuine_example = sub_serve-IsGenuine example_env example_conn 4 0 lines none

-- The line "cwd a".
abbrev line : Bytes
line = b'c' ∷ b'w' ∷ b'd' ∷ b' ' ∷ b'a' ∷ []

receive_line-IsAlike_example :
    IsAlike
      (receive_line example_env line new)
      (ftps_receive_line (view_env example_env) line (view new))
unfolding parse_line to_upper is_ascii upper_byte trim codes split_two
receive_line-IsAlike_example =
    receive_line-IsAlike example_env line new (inr (inr (inr (inl refl))))

next_of : World → ℕ
next_of w = w

in_order :
    (w : World) (id : StreamId)
    → (example_env.accept_uni_stream w).0 ≡ answered (ok id)
    → (w ≤ id) × (id < (example_env.accept_uni_stream w).1)
in_order w id e = ground (arith, e)

receive_stream-IsFound_example :
    IsFound example_env true 2 (get_receive_data_stream example_env 2 new)
unfolding new_sub_session new_conn
receive_stream-IsFound_example = receive_stream-IsFound example_env (λ w. w) in_order 2 new refl

abbrev pub knowing : SubSession World
knowing = record new { shared = record new.shared { data_receive_streams = 2 ∷ [] } }
