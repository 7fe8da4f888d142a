-- ===== src/Ftps/Tests/Advertising.antt =====
-- A server that listens, on concrete options.
use ftps_qftp_server.Prelude.{ℕ, ◌≡◌, refl, true, none, some, [], ◌∷◌, ◌++◌}
use ftps_qftp_server.Text.{codes}
use ftps_qftp_server.Ftps.State.{Session}
use ftps_qftp_server.Ftps.Server.{ServerOpts, no_opts}
use ftps_qftp_server.Ftps.Commands.Security.{execute_auth}
use ftps_qftp_server.Ftps.Invariant.{Post}
use ftps_qftp_server.Ftps.Accepting.{Listening, listen_and_serve, listen_with_tls, end_listen}
use ftps_qftp_server.Ftps.Advertising.{answers, with_auth_lines, auth_answer, auth_advertised}
use ftps_qftp_server.Ftps.Tests.{World, example_env, new, bob, file}

abbrev open_network : Listening
open_network = record {
  load_key_pair = λ cert key. none;
  listen = λ address. none;
  listen_tls = λ address. none;
}

abbrev tls_opts : ServerOpts ℕ ℕ ℕ
tls_opts = record no_opts { tls = true; explicit_ftps = true; cert_file = bob; key_file = file }

abbrev with_config : Session World
with_config = record new {
  conn = record new.conn { tls_config = some (record { cert_file = bob; key_file = file }) };
}

auth_advertised_example :
    ((listen_and_serve open_network tls_opts [] bob []).feats
      ≡ codes "Extensions supported:\n" ++ with_auth_lines true bob)
    × Post
        (λ t. answers t.trace ≡ auth_answer true ∷ answers with_config.trace)
        (execute_auth example_env (codes "TLS") with_config)
unfolding listen_and_serve listen_with_tls end_listen
auth_advertised_example =
    auth_advertised open_network tls_opts [] example_env bob [] with_config refl refl refl refl
