-- ===== src/Ftpq/Quiet/Files.antt =====
-- The commands that move no data are quiet, but QUIT.
use ftps_qftp_server.Prelude.{inl, inr, true, false, not, none, some, List, [], ◌∷◌}
use ftps_qftp_server.Prelude.Int.{ℤ}
use ftps_qftp_server.Text.{Bytes, codes, bytes_eq, to_upper}
use ftps_qftp_server.Text.Scan.{fields}
use ftps_qftp_server.Number.{parse_int, Status, fine, bad_syntax, out_of_range}
use ftps_qftp_server.Driver.{Result-cases}
use ftps_qftp_server.Ftpq.State.{QuicEnv}
use ftps_qftp_server.Ftpq.SubConn.{write_message, build_path}
use ftps_qftp_server.Ftpq.Commands.Control.{
  execute_allo, execute_feat, execute_hello, execute_noop, execute_pwd, execute_syst, execute_user,
  answer_opts, execute_opts, execute_pass, execute_mode, execute_stru, execute_type,
}
use ftps_qftp_server.Ftpq.Commands.Files.{
  execute_rnfr, execute_cwd, execute_cdup, execute_dele, execute_mkd, execute_rmd, rename_to,
  execute_rnto, execute_mdtm, execute_size,
}
use ftps_qftp_server.Ftpq.Commands.Transfer.{execute_appe, answer_rest, execute_rest}
use ftps_qftp_server.Ftpq.Quiet.{
  IsQuiet, if-IsQuiet, write_message-IsQuiet, write_multiline-IsQuiet,
}

module _ {W : Type 0} where
  pub allo-IsQuiet : (param : Bytes) → IsQuiet (execute_allo {W = W} param)
  unfolding execute_allo
  allo-IsQuiet param = write_message-IsQuiet _ _

  pub noop-IsQuiet : (param : Bytes) → IsQuiet (execute_noop {W = W} param)
  unfolding execute_noop
  noop-IsQuiet param = write_message-IsQuiet _ _

  pub syst-IsQuiet : (param : Bytes) → IsQuiet (execute_syst {W = W} param)
  unfolding execute_syst
  syst-IsQuiet param = write_message-IsQuiet _ _

  pub feat-IsQuiet : (param : Bytes) → IsQuiet (execute_feat {W = W} param)
  unfolding execute_feat
  feat-IsQuiet param = record {
    at = λ k s h. (write_multiline-IsQuiet 211 s.shared.server.feats).at k s h;
  }

  pub hello-IsQuiet : (param : Bytes) → IsQuiet (execute_hello {W = W} param)
  unfolding execute_hello write_message
  hello-IsQuiet param = record { at = λ k s h. h }

  pub pwd-IsQuiet : (param : Bytes) → IsQuiet (execute_pwd {W = W} param)
  unfolding execute_pwd write_message
  pwd-IsQuiet param = record { at = λ k s h. h }

  pub user-IsQuiet : (param : Bytes) → IsQuiet (execute_user {W = W} param)
  unfolding execute_user write_message
  user-IsQuiet param = record { at = λ k s h. h }

  pub rnfr-IsQuiet : (param : Bytes) → IsQuiet (execute_rnfr {W = W} param)
  unfolding execute_rnfr write_message
  rnfr-IsQuiet param = record { at = λ k s h. h }

  pub appe-IsQuiet : (param : Bytes) → IsQuiet (execute_appe {W = W} param)
  unfolding execute_appe write_message
  appe-IsQuiet param = record { at = λ k s h. h }

  answer_rest-IsQuiet : (r : ℤ × Status) → IsQuiet (answer_rest {W = W} r)
  unfolding answer_rest write_message
  answer_rest-IsQuiet (n, fine) = record { at = λ k s h. h }
  answer_rest-IsQuiet (n, bad_syntax) = record { at = λ k s h. h }
  answer_rest-IsQuiet (n, out_of_range) = record { at = λ k s h. h }

  pub rest-IsQuiet : (param : Bytes) → IsQuiet (execute_rest {W = W} param)
  unfolding execute_rest
  rest-IsQuiet param = answer_rest-IsQuiet (parse_int param)

module _ {W : Type 0} (env : QuicEnv W) where
  answer_opts-IsQuiet : (words : List Bytes) → IsQuiet (answer_opts env words)
  unfolding answer_opts
  answer_opts-IsQuiet [] = write_message-IsQuiet _ _
  answer_opts-IsQuiet (a ∷ []) = write_message-IsQuiet _ _
  answer_opts-IsQuiet (a ∷ b ∷ []) =
      if-IsQuiet (not (bytes_eq (to_upper env.unicode_upper a) (codes "UTF8")))
        (write_message-IsQuiet _ _)
        (if-IsQuiet (bytes_eq (to_upper env.unicode_upper b) (codes "ON"))
          (write_message-IsQuiet _ _) (write_message-IsQuiet _ _))
  answer_opts-IsQuiet (a ∷ b ∷ c ∷ r) = write_message-IsQuiet _ _

  pub opts-IsQuiet : (param : Bytes) → IsQuiet (execute_opts env param)
  unfolding execute_opts
  opts-IsQuiet param = answer_opts-IsQuiet (fields param)

  pub mode-IsQuiet : (param : Bytes) → IsQuiet (execute_mode env param)
  unfolding execute_mode
  mode-IsQuiet param =
      if-IsQuiet (bytes_eq (to_upper env.unicode_upper param) (codes "S"))
        (write_message-IsQuiet _ _) (write_message-IsQuiet _ _)

  pub stru-IsQuiet : (param : Bytes) → IsQuiet (execute_stru env param)
  unfolding execute_stru
  stru-IsQuiet param =
      if-IsQuiet (bytes_eq (to_upper env.unicode_upper param) (codes "F"))
        (write_message-IsQuiet _ _) (write_message-IsQuiet _ _)

  pub type-IsQuiet : (param : Bytes) → IsQuiet (execute_type env param)
  unfolding execute_type
  type-IsQuiet param =
      if-IsQuiet (bytes_eq (to_upper env.unicode_upper param) (codes "A"))
        (write_message-IsQuiet _ _)
        (if-IsQuiet (bytes_eq (to_upper env.unicode_upper param) (codes "I"))
          (write_message-IsQuiet _ _) (write_message-IsQuiet _ _))

  pub pass-IsQuiet : (param : Bytes) → IsQuiet (execute_pass env param)
  unfolding execute_pass write_message
  pass-IsQuiet param = record {
    at = λ k s h. elim (Result-cases (env.check_passwd s.req_user param s.world).0) [
      | inl (true, e) ↦ rw e h
      | inl (false, e) ↦ rw e h
      | inr (t, e) ↦ rw e h
    ];
  }

  pub cwd-IsQuiet : (param : Bytes) → IsQuiet (execute_cwd env param)
  unfolding execute_cwd write_message
  cwd-IsQuiet param = record {
    at = λ k s h. elim (Result-cases (env.change_dir (build_path s.sub param) s.world).0) [
      | inl (u, e) ↦ rw e h
      | inr (t, e) ↦ rw e h
    ];
  }

  pub cdup-IsQuiet : (param : Bytes) → IsQuiet (execute_cdup env param)
  unfolding execute_cdup
  cdup-IsQuiet param = cwd-IsQuiet (codes "..")

  pub dele-IsQuiet : (param : Bytes) → IsQuiet (execute_dele env param)
  unfolding execute_dele write_message
  dele-IsQuiet param = record {
    at = λ k s h. elim (Result-cases (env.delete_file (build_path s.sub param) s.world).0) [
      | inl (u, e) ↦ rw e h
      | inr (t, e) ↦ rw e h
    ];
  }

  pub mkd-IsQuiet : (param : Bytes) → IsQuiet (execute_mkd env param)
  unfolding execute_mkd write_message
  mkd-IsQuiet param = record {
    at = λ k s h. elim (Result-cases (env.make_dir (build_path s.sub param) s.world).0) [
      | inl (u, e) ↦ rw e h
      | inr (t, e) ↦ rw e h
    ];
  }

  pub rmd-IsQuiet : (param : Bytes) → IsQuiet (execute_rmd env param)
  unfolding execute_rmd write_message
  rmd-IsQuiet param = record {
    at = λ k s h. elim (Result-cases (env.delete_dir (build_path s.sub param) s.world).0) [
      | inl (u, e) ↦ rw e h
      | inr (t, e) ↦ rw e h
    ];
  }

  pub rnto-IsQuiet : (param : Bytes) → IsQuiet (execute_rnto env param)
  unfolding execute_rnto rename_to write_message
  rnto-IsQuiet param = record {
    at = λ k s h.
        elim (Result-cases (env.rename s.rename_from (build_path s.sub param) s.world).0) [
          | inl (u, e) ↦ rw e h
          | inr (t, e) ↦ rw e h
        ];
  }

  pub mdtm-IsQuiet : (param : Bytes) → IsQuiet (execute_mdtm env param)
  unfolding execute_mdtm write_message
  mdtm-IsQuiet param = record {
    at = λ k s h. elim (Result-cases (env.stat (build_path s.sub param) s.world).0) [
      | inl (none, e) ↦ rw e h
      | inl (some info, e) ↦ rw e h
      | inr (t, e) ↦ rw e h
    ];
  }

  pub size-IsQuiet : (param : Bytes) → IsQuiet (execute_size env param)
  unfolding execute_size write_message
  size-IsQuiet param = record {
    at = λ k s h. elim (Result-cases (env.stat (build_path s.sub param) s.world).0) [
      | inl (none, e) ↦ rw e h
      | inl (some info, e) ↦ rw e h
      | inr (t, e) ↦ rw e h
    ];
  }
