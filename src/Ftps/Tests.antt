-- ===== src/Ftps/Tests.antt =====
-- A driver and a network in which the theorems are applied to concrete inputs, and tests of `buildPath`.
mod Lines
mod Advertising
mod Passive
use ftps_qftp_server.Prelude.{
  ℕ, ◌<◌, ◌≡◌, ◌≢◌, refl, ◌⊎◌, Bool, true, false, none, some, List, [], ◌∷◌, ◌++◌, ◌+◌, ◌*◌, ◌≤◌,
  All, arith,
}
use ftps_qftp_server.Prelude.Int.{pos}
use ftps_qftp_server.Text.{Bytes, codes}
use ftps_qftp_server.Text.Scan.{replace}
use ftps_qftp_server.Text.Split.{Lacks}
use ftps_qftp_server.FilePath.{clean, rooted_path, dot_dot}
use ftps_qftp_server.FilePath.Sandbox.{IsName, IsSandboxed}
use ftps_qftp_server.Number.{format_nat}
use ftps_qftp_server.Driver.{Result, ok, rename_call, put_file_call}
use ftps_qftp_server.Ftps.State.{
  data_connection_protected, Conn, Server, listening, copied, Env, Session, done, ◌>>=◌, ◌>>◌,
}
use ftps_qftp_server.Ftps.Connection.{build_path, passive_port}
use ftps_qftp_server.Ftps.Socket.{new_active_socket, new_passive_socket}
use ftps_qftp_server.Ftps.Server.{ServerOpts, no_opts, server_opts_with_defaults, new_session}
use ftps_qftp_server.Ftps.Dispatch.{serve}
use ftps_qftp_server.Ftps.Commands.Files.{execute_rnfr, execute_rnto}
use ftps_qftp_server.Ftps.Commands.Control.{execute_user, execute_pass}
use ftps_qftp_server.Ftps.Commands.Transfer.{execute_rest, execute_stor, execute_retr}
use ftps_qftp_server.Ftps.Commands.Ports.{execute_port, answer_active}
use ftps_qftp_server.Ftps.Invariant.{Post}
use ftps_qftp_server.Ftps.Confined.{IsConfinedEvent, serve_confined}
use ftps_qftp_server.Ftps.Login.{IsLoginFirst, serve-IsLoginFirst}
use ftps_qftp_server.Ftps.Protection.{IsProtectionSound, serve_protection}
use ftps_qftp_server.Ftps.Sequences.{
  driver_calls, rename_pair, pass_refused, rest_stor, retr_resets,
}
use ftps_qftp_server.Ftps.Opening.{passive_port_range, dialled, port_connects}
use ftps_qftp_server.Ftps.Security.{IsAsked, passive-IsAsked, IsClear, port-IsClear}
use ftps_qftp_server.Ftps.Defaults.{server_opts-filled, server_opts-again}
use ftps_qftp_server.Ftps.Paths.{
  listing_option, resolve, build_path-resolve, build_path-IsSandboxed, build_path-parent,
  build_path-again,
}

-- Every call succeeds, the password "secret" is right, and the random number is the smallest one.
abbrev pub World : Type 0
World = Unit {0}

abbrev pub secret : Bytes
secret = b's' ∷ b'e' ∷ []

abbrev pub bob : Bytes
bob = b'b' ∷ b'o' ∷ []

abbrev check : Bytes → Result Bool
check [] = ok false
check (c ∷ pass) = ok true

abbrev pub file : Bytes
file = b'f' ∷ []

abbrev pub example_env : Env World
example_env = record {
  driver = record {
    stat = λ path w. (ok none, w);
    change_dir = λ path w. (ok tt, w);
    list_dir = λ path w. (ok [], w);
    delete_dir = λ path w. (ok tt, w);
    delete_file = λ path w. (ok tt, w);
    rename = λ from to w. (ok tt, w);
    make_dir = λ path w. (ok tt, w);
    get_file = λ path offset w. (ok (pos 5, 0), w);
    put_file = λ path socket append w. (ok (pos 5), w);
    check_passwd = λ name pass w. (check pass, w);
  };
  network = record {
    dial = λ address w. (ok 1, w);
    listen = λ port w. (listening 2 (b':' ∷ b'7' ∷ []), w);
    handshake = λ w. (ok tt, w);
    write_data = λ socket bytes w. w;
    copy_data = λ socket reader w. (copied (pos 5), w);
    intn = λ n w. (0, w);
    address_in_use = 98;
    is_windows = false;
    unicode_upper = λ s. s;
  };
}

abbrev pub example_server : Server
example_server = record {
  public_ip = [];
  passive_ports = format_nat 2000 ++ b'-' ∷ format_nat 2010;
  welcome_message = bob;
  feats = [];
}

abbrev pub new : Session World
new = new_session example_server none bob bob tt

abbrev pub lines : List Bytes
lines =
    codes "USER bo\r\n"
    ∷ codes "PASS se\r\n"
    ∷ codes "CWD ../a\r\n"
    ∷ codes "DELE x\r\n"
    ∷ codes "QUIT\r\n"
    ∷ []

root-IsSandboxed : IsSandboxed new.name_prefix
unfolding new_session rooted_path
root-IsSandboxed = record { names = []; all_names = tt; spelled = refl }

-- The directory "/files".
abbrev files : List Bytes
files = (b'f' ∷ b's' ∷ []) ∷ []

abbrev in_files : Conn
in_files = record new.conn { name_prefix = rooted_path files }

files-IsName : (IsName (b'f' ∷ b's' ∷ [])) × Unit {0}
unfolding rooted_path
files-IsName = (
  record {
    not_empty = λ e. ground (arith, e);
    not_dot = λ e. ground (arith, e);
    not_dot_dot = λ e. ground (arith, e);
    one_part = ((λ e. absurd (omega (arith, e))), ((λ e. absurd (omega (arith, e))), tt));
  },
  tt,
)

in_files-IsSandboxed : IsSandboxed in_files.name_prefix
in_files-IsSandboxed = record { names = files; all_names = files-IsName; spelled = refl }

-- The names that a client sends in the comment of `buildPath`.
build_path_root : build_path new.conn (codes "/") ≡ codes "/"
unfolding build_path new_session codes replace clean
build_path_root = refl

build_path_one : build_path new.conn (codes "one.txt") ≡ codes "/one.txt"
unfolding build_path new_session codes replace clean
build_path_one = refl

build_path_two : build_path new.conn (codes "files/two.txt") ≡ codes "/files/two.txt"
unfolding build_path new_session codes replace clean
build_path_two = refl

build_path_passwd : build_path new.conn (codes "/../../../../etc/passwd") ≡ codes "/etc/passwd"
unfolding build_path new_session codes replace clean
build_path_passwd = refl

serve-IsLoginFirst_example : Post (λ s. IsLoginFirst s.trace) (serve example_env lines none new)
serve-IsLoginFirst_example =
    serve-IsLoginFirst example_env example_server none bob bob tt lines none

serve_confined_example : Post (λ s. All IsConfinedEvent s.trace) (serve example_env lines none new)
serve_confined_example = serve_confined example_env example_server none bob bob tt lines none

serve_protection_example : Post IsProtectionSound (serve example_env lines none new)
serve_protection_example = serve_protection example_env example_server none bob bob tt lines none

build_path-resolve_example : build_path in_files file ≡ rooted_path (resolve files file)
build_path-resolve_example = build_path-resolve in_files files file files-IsName refl

build_path-IsSandboxed_example : IsSandboxed (build_path in_files (dot_dot ++ b'/' ∷ file))
build_path-IsSandboxed_example =
    build_path-IsSandboxed in_files (dot_dot ++ b'/' ∷ file) in_files-IsSandboxed

build_path-parent_example : build_path in_files dot_dot ≡ rooted_path []
build_path-parent_example = build_path-parent in_files [] (b'f' ∷ b's' ∷ []) files-IsName refl

rename_pair_example :
    Post
      (λ t.
        (driver_calls t.trace
          ≡ rename_call (build_path new.conn file) (build_path new.conn bob)
            ∷ driver_calls new.trace)
        × (t.rename_from ≡ []))
      ((execute_rnfr file >> execute_rnto example_env bob) new)
rename_pair_example = rename_pair example_env new file bob

retr_resets_example :
    Post
      (λ t. (t.last_file_pos ≡ pos 0) × (t.append_data ≡ false))
      (execute_retr example_env file new)
retr_resets_example = retr_resets example_env new file

rest_stor_example :
    Post
      (λ t.
        (driver_calls t.trace
          ≡ put_file_call (build_path new.conn file) new.data_conn true ∷ driver_calls new.trace)
        × (t.last_file_pos ≡ pos 7)
        × (t.append_data ≡ false))
      ((execute_rest (format_nat 7) >> execute_stor example_env file) new)
rest_stor_example = rest_stor example_env new 7 file (omega arith)

pass_refused_example :
    Post (λ t. (t.user ≡ new.user) × (t.req_user ≡ new.req_user)) (execute_pass example_env [] new)
pass_refused_example = pass_refused example_env new [] (λ e. ground (arith, e))

passive_port_range_example :
    (port : ℕ) × (passive_port example_env new ≡ done (pos port) new)
    × (2000 ≤ port)
    × (port < 2010)
unfolding new_session
passive_port_range_example =
    passive_port_range example_env new 2000 9 (omega arith) refl (omega arith)

file-Lacks : Lacks b',' file
file-Lacks = ((λ e. absurd (omega (arith, e))), tt)

-- The parameter "f,f,f,f,4,210".
abbrev address : Bytes
address =
    file
    ++ b','
      ∷ (file ++ b',' ∷ (file ++ b',' ∷ (file ++ b',' ∷ (format_nat 4 ++ b',' ∷ format_nat 210))))

port_connects_example :
    execute_port example_env address new
    ≡ done tt (
        dialled new
          (file ++ b'.' ∷ (file ++ b'.' ∷ (file ++ b'.' ∷ file)))
          (pos (4 * 256 + 210))
          tt
          (ok 1))
port_connects_example =
    port_connects example_env file file file file 4 210 new (ok 1) file-Lacks file-Lacks file-Lacks
      file-Lacks (omega arith) (omega arith) refl

passive-IsAsked_example : IsAsked bob true (new_passive_socket example_env bob true new)
passive-IsAsked_example = passive-IsAsked bob true example_env new

-- A connection that has asked for protected data connections.
abbrev protected : Session World
protected = record new {
  conn = record new.conn { data_connection_protection = data_connection_protected };
}

port-IsClear_example :
    Post
      (λ t. (t.data_conn ≡ protected.data_conn) ⊎ IsClear t.data_conn)
      (execute_port example_env address protected)
port-IsClear_example = port-IsClear example_env address protected

abbrev some_opts : ServerOpts (Unit {0}) (Unit {0}) ℕ
some_opts = record no_opts { port = pos 21 }

server_opts-filled_example :
    (let filled = server_opts_with_defaults 1 (some some_opts) in
      (filled.name ≢ [])
      × (filled.hostname ≢ [])
      × (filled.welcome_message ≢ [])
      × (filled.port ≢ pos 0)
      × (filled.logger ≢ none))
server_opts-filled_example = server_opts-filled 1 (some some_opts)
