-- ===== src/Ftpq/Tests/Storing.antt =====
-- STOR on concrete inputs.
use ftps_qftp_server.Prelude.{◌≡◌, refl, [], ◌∷◌, ◌++◌, arith}
use ftps_qftp_server.Prelude.Int.{pos}
use ftps_qftp_server.Text.{Bytes}
use ftps_qftp_server.Text.Split.{Lacks}
use ftps_qftp_server.Number.{parse_int, fine}
use ftps_qftp_server.Ftpq.State.{finished}
use ftps_qftp_server.Ftpq.SubConn.{has_stream}
use ftps_qftp_server.Ftpq.Server.{new_sub_session, new_conn}
use ftps_qftp_server.Ftpq.Commands.Transfer.{is_bad_stream, execute_stor}
use ftps_qftp_server.Ftpq.Replies.{replies}
use ftps_qftp_server.Ftpq.Storing.{
  FailsOnPath, replies_before, stor_without_path, stored, stor_stores,
}
use ftps_qftp_server.Ftpq.Tests.{example_env, knowing, bob}

abbrev two : Bytes
two = b'2' ∷ []

two-Lacks : Lacks b' ' two
two-Lacks = ((λ e. absurd (omega (arith, e))), tt)

two_parsed : parse_int two ≡ (pos 2, fine)
unfolding parse_int
two_parsed = refl

stor_without_path_example :
    FailsOnPath
      (replies_before (is_bad_stream (parse_int two)) (replies knowing.trace))
      (execute_stor example_env two knowing)
stor_without_path_example = stor_without_path example_env two knowing two-Lacks

stor_stores_example :
    execute_stor example_env (two ++ b' ' ∷ bob) knowing
    ≡ finished tt (stored example_env knowing bob 2 (pos 5))
unfolding has_stream new_sub_session new_conn
stor_stores_example =
    stor_stores example_env two bob 2 (pos 5) knowing two-Lacks two_parsed refl (omega arith) refl
      refl refl
