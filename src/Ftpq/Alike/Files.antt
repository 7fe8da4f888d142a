-- ===== src/Ftpq/Alike/Files.antt =====
-- The commands of Files do the same as those of `ftps`.
use ftps_qftp_server.Prelude.{◌≡◌, refl, inl, inr, none, some}
use ftps_qftp_server.Text.{Bytes, codes}
use ftps_qftp_server.Driver.{Result-cases}
use ftps_qftp_server.Ftps.Connection.{
  build_path as ftps_build_path, uncleaned_path as ftps_uncleaned_path,
  write_message as ftps_write_message,
}
use ftps_qftp_server.Ftps.Commands.Files.{
  execute_rnfr as ftps_rnfr, execute_cwd as ftps_cwd, execute_cdup as ftps_cdup,
  execute_dele as ftps_dele, execute_mkd as ftps_mkd, execute_rmd as ftps_rmd,
  execute_rnto as ftps_rnto, execute_mdtm as ftps_mdtm, execute_size as ftps_size,
  rename_to as ftps_rename_to,
}
use ftps_qftp_server.Ftpq.State.{SubConn, QuicConn, QuicEnv, SubSession}
use ftps_qftp_server.Ftpq.SubConn.{build_path, uncleaned_path, write_message}
use ftps_qftp_server.Ftpq.Commands.Files.{
  execute_rnfr, execute_cwd, execute_cdup, execute_dele, execute_mkd, execute_rmd, execute_rnto,
  execute_mdtm, execute_size, rename_to,
}
use ftps_qftp_server.Ftpq.View.{view, view_conn, view_env, IsAlike}

-- The paths are built in the same way.
pub build_path_alike :
    (c : SubConn) (shared : QuicConn) (param : Bytes)
    → build_path c param ≡ ftps_build_path (view_conn c shared) param
unfolding build_path ftps_build_path uncleaned_path ftps_uncleaned_path
build_path_alike c shared param = refl

module _ {W : Type 0} (s : SubSession W) where
  pub rnfr-IsAlike : (param : Bytes) → IsAlike (execute_rnfr param s) (ftps_rnfr param (view s))
  unfolding execute_rnfr ftps_rnfr write_message ftps_write_message build_path ftps_build_path
      uncleaned_path ftps_uncleaned_path
  rnfr-IsAlike param = refl

module _ {W : Type 0} (env : QuicEnv W) (s : SubSession W) where
  pub cwd-IsAlike :
      (param : Bytes) → IsAlike (execute_cwd env param s) (ftps_cwd (view_env env) param (view s))
  unfolding execute_cwd ftps_cwd write_message ftps_write_message build_path ftps_build_path
      uncleaned_path ftps_uncleaned_path
  cwd-IsAlike param = elim (Result-cases (env.change_dir (build_path s.sub param) s.world).0) [
    | inl (u, e) ↦ cc
    | inr (t, e) ↦ cc
  ]

  pub cdup-IsAlike :
      (param : Bytes) → IsAlike (execute_cdup env param s) (ftps_cdup (view_env env) param (view s))
  unfolding execute_cdup ftps_cdup
  cdup-IsAlike param = cwd-IsAlike (codes "..")

  pub dele-IsAlike :
      (param : Bytes) → IsAlike (execute_dele env param s) (ftps_dele (view_env env) param (view s))
  unfolding execute_dele ftps_dele write_message ftps_write_message build_path ftps_build_path
      uncleaned_path ftps_uncleaned_path
  dele-IsAlike param = elim (Result-cases (env.delete_file (build_path s.sub param) s.world).0) [
    | inl (u, e) ↦ cc
    | inr (t, e) ↦ cc
  ]

  pub mkd-IsAlike :
      (param : Bytes) → IsAlike (execute_mkd env param s) (ftps_mkd (view_env env) param (view s))
  unfolding execute_mkd ftps_mkd write_message ftps_write_message build_path ftps_build_path
      uncleaned_path ftps_uncleaned_path
  mkd-IsAlike param = elim (Result-cases (env.make_dir (build_path s.sub param) s.world).0) [
    | inl (u, e) ↦ cc
    | inr (t, e) ↦ cc
  ]

  pub rmd-IsAlike :
      (param : Bytes) → IsAlike (execute_rmd env param s) (ftps_rmd (view_env env) param (view s))
  unfolding execute_rmd ftps_rmd write_message ftps_write_message build_path ftps_build_path
      uncleaned_path ftps_uncleaned_path
  rmd-IsAlike param = elim (Result-cases (env.delete_dir (build_path s.sub param) s.world).0) [
    | inl (u, e) ↦ cc
    | inr (t, e) ↦ cc
  ]

  pub rnto-IsAlike :
      (param : Bytes) → IsAlike (execute_rnto env param s) (ftps_rnto (view_env env) param (view s))
  unfolding execute_rnto ftps_rnto write_message ftps_write_message build_path ftps_build_path
      uncleaned_path ftps_uncleaned_path rename_to ftps_rename_to
  rnto-IsAlike param =
      elim (Result-cases (env.rename s.rename_from (build_path s.sub param) s.world).0) [
        | inl (u, e) ↦ cc
        | inr (t, e) ↦ cc
      ]

  pub mdtm-IsAlike :
      (param : Bytes) → IsAlike (execute_mdtm env param s) (ftps_mdtm (view_env env) param (view s))
  unfolding execute_mdtm ftps_mdtm write_message ftps_write_message build_path ftps_build_path
      uncleaned_path ftps_uncleaned_path
  mdtm-IsAlike param = elim (Result-cases (env.stat (build_path s.sub param) s.world).0) [
    | inl (none, e) ↦ cc
    | inl (some info, e) ↦ cc
    | inr (t, e) ↦ cc
  ]

  pub size-IsAlike :
      (param : Bytes) → IsAlike (execute_size env param s) (ftps_size (view_env env) param (view s))
  unfolding execute_size ftps_size write_message ftps_write_message build_path ftps_build_path
      uncleaned_path ftps_uncleaned_path
  size-IsAlike param = elim (Result-cases (env.stat (build_path s.sub param) s.world).0) [
    | inl (none, e) ↦ cc
    | inl (some info, e) ↦ cc
    | inr (t, e) ↦ cc
  ]
