-- ===== src/Ftpq/Alike/Control.antt =====
-- The commands of Control do the same as those of `ftps`.
use ftps_qftp_server.Prelude.{refl, inl, inr, true, false, List, [], ◌∷◌, arith}
use ftps_qftp_server.Text.{Bytes}
use ftps_qftp_server.Text.Scan.{fields}
use ftps_qftp_server.Driver.{Result-cases}
use ftps_qftp_server.Ftps.Connection.{
  write_message as ftps_write_message, write_message_multiline as ftps_write_message_multiline,
}
use ftps_qftp_server.Ftps.Commands.Control.{
  execute_allo as ftps_allo, execute_feat as ftps_feat, execute_noop as ftps_noop,
  execute_pwd as ftps_pwd, execute_syst as ftps_syst, execute_user as ftps_user,
  execute_opts as ftps_opts, execute_pass as ftps_pass, execute_mode as ftps_mode,
  execute_stru as ftps_stru, execute_type as ftps_type, answer_opts as ftps_answer_opts,
}
use ftps_qftp_server.Ftpq.State.{QuicEnv, SubSession}
use ftps_qftp_server.Ftpq.SubConn.{write_message, write_message_multiline}
use ftps_qftp_server.Ftpq.Commands.Control.{
  execute_allo, execute_feat, execute_noop, execute_pwd, execute_syst, execute_user, execute_opts,
  execute_pass, execute_mode, execute_stru, execute_type, answer_opts,
}
use ftps_qftp_server.Ftpq.View.{view, view_env, IsAlike}

module _ {W : Type 0} (s : SubSession W) where
  pub allo-IsAlike : (param : Bytes) → IsAlike (execute_allo param s) (ftps_allo param (view s))
  unfolding execute_allo ftps_allo write_message ftps_write_message
  allo-IsAlike param = refl

  pub noop-IsAlike : (param : Bytes) → IsAlike (execute_noop param s) (ftps_noop param (view s))
  unfolding execute_noop ftps_noop write_message ftps_write_message
  noop-IsAlike param = refl

  pub pwd-IsAlike : (param : Bytes) → IsAlike (execute_pwd param s) (ftps_pwd param (view s))
  unfolding execute_pwd ftps_pwd write_message ftps_write_message
  pwd-IsAlike param = refl

  pub syst-IsAlike : (param : Bytes) → IsAlike (execute_syst param s) (ftps_syst param (view s))
  unfolding execute_syst ftps_syst write_message ftps_write_message
  syst-IsAlike param = refl

  pub user-IsAlike : (param : Bytes) → IsAlike (execute_user param s) (ftps_user param (view s))
  unfolding execute_user ftps_user write_message ftps_write_message
  user-IsAlike param = refl

  pub feat-IsAlike : (param : Bytes) → IsAlike (execute_feat param s) (ftps_feat param (view s))
  unfolding execute_feat ftps_feat write_message_multiline ftps_write_message_multiline
  feat-IsAlike param = refl

module _ {W : Type 0} (env : QuicEnv W) (s : SubSession W) where
  answer_opts-IsAlike :
      (words : List Bytes)
      → IsAlike (answer_opts env words s) (ftps_answer_opts (view_env env) words (view s))
  unfolding answer_opts ftps_answer_opts write_message ftps_write_message
  answer_opts-IsAlike [] = refl
  answer_opts-IsAlike (a ∷ []) = refl
  answer_opts-IsAlike (a ∷ b ∷ []) = ground arith
  answer_opts-IsAlike (a ∷ b ∷ c ∷ r) = refl

  pub opts-IsAlike :
      (param : Bytes) → IsAlike (execute_opts env param s) (ftps_opts (view_env env) param (view s))
  unfolding execute_opts ftps_opts
  opts-IsAlike param = answer_opts-IsAlike (fields param)

  pub pass-IsAlike :
      (param : Bytes) → IsAlike (execute_pass env param s) (ftps_pass (view_env env) param (view s))
  unfolding execute_pass ftps_pass write_message ftps_write_message
  pass-IsAlike param = elim (Result-cases (env.check_passwd s.req_user param s.world).0) [
    | inl (true, e) ↦ cc
    | inl (false, e) ↦ cc
    | inr (t, e) ↦ cc
  ]

  pub mode-IsAlike :
      (param : Bytes) → IsAlike (execute_mode env param s) (ftps_mode (view_env env) param (view s))
  unfolding execute_mode ftps_mode write_message ftps_write_message
  mode-IsAlike param = ground arith

  pub stru-IsAlike :
      (param : Bytes) → IsAlike (execute_stru env param s) (ftps_stru (view_env env) param (view s))
  unfolding execute_stru ftps_stru write_message ftps_write_message
  stru-IsAlike param = ground arith

  pub type-IsAlike :
      (param : Bytes) → IsAlike (execute_type env param s) (ftps_type (view_env env) param (view s))
  unfolding execute_type ftps_type write_message ftps_write_message
  type-IsAlike param = ground arith
