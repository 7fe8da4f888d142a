-- ===== src/Ftpq/Alike/Transfer.antt =====
-- The commands of Transfer do the same as those of `ftps`.
use ftps_qftp_server.Prelude.{refl}
use ftps_qftp_server.Text.{Bytes}
use ftps_qftp_server.Number.{parse_int, Status, fine, bad_syntax, out_of_range}
use ftps_qftp_server.Prelude.Int.{ℤ}
use ftps_qftp_server.Ftps.Connection.{write_message as ftps_write_message}
use ftps_qftp_server.Ftps.Commands.Transfer.{
  execute_appe as ftps_appe, execute_rest as ftps_rest, answer_rest as ftps_answer_rest,
}
use ftps_qftp_server.Ftpq.State.{SubSession}
use ftps_qftp_server.Ftpq.SubConn.{write_message}
use ftps_qftp_server.Ftpq.Commands.Transfer.{execute_appe, execute_rest, answer_rest}
use ftps_qftp_server.Ftpq.View.{view, IsAlike}

module _ {W : Type 0} (s : SubSession W) where
  pub appe-IsAlike : (param : Bytes) → IsAlike (execute_appe param s) (ftps_appe param (view s))
  unfolding execute_appe ftps_appe write_message ftps_write_message
  appe-IsAlike param = refl

  answer_rest-IsAlike :
      (n : ℤ) (status : Status)
      → IsAlike (answer_rest (n, status) s) (ftps_answer_rest (n, status) (view s))
  unfolding answer_rest ftps_answer_rest write_message ftps_write_message
  answer_rest-IsAlike n fine = refl
  answer_rest-IsAlike n bad_syntax = refl
  answer_rest-IsAlike n out_of_range = refl

  pub rest-IsAlike : (param : Bytes) → IsAlike (execute_rest param s) (ftps_rest param (view s))
  unfolding execute_rest ftps_rest
  rest-IsAlike param = answer_rest-IsAlike (parse_int param).0 (parse_int param).1
