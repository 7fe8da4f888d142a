-- ===== src/Ftps/Invariant/Control.antt =====
-- The commands of Commands/Control keep every invariant of a connection.
use ftps_qftp_server.Prelude.{not, inl, inr, true, false, List, [], ◌∷◌}
use ftps_qftp_server.Text.{Bytes, codes, bytes_eq, to_upper}
use ftps_qftp_server.Text.Scan.{fields}
use ftps_qftp_server.Driver.{ok, err, Result-cases}
use ftps_qftp_server.Ftps.State.{Env, Session}
use ftps_qftp_server.Ftps.Commands.Control.{
  execute_allo, execute_feat, execute_noop, execute_pwd, execute_quit, execute_syst, execute_user,
  answer_opts, execute_opts, execute_pass, execute_mode, execute_stru, execute_type,
}
use ftps_qftp_server.Ftps.Invariant.{Invariant, Post}
use ftps_qftp_server.Ftps.Invariant.Rules.{
  Keeps, write_message-Keeps, write_message_multiline-Keeps, close-Keeps, if-Keeps, bind-Keeps,
}

module _ {W : Type 0} {I : Session W → Type 0} (inv : Invariant I) where
  pub allo-Keeps : (param : Bytes) → Keeps I (execute_allo param)
  unfolding execute_allo
  allo-Keeps param = write_message-Keeps inv _ _

  pub feat-Keeps : (param : Bytes) → Keeps I (execute_feat param)
  unfolding execute_feat
  feat-Keeps param = record { at = λ s h. (write_message_multiline-Keeps inv _ _).at s h }

  pub noop-Keeps : (param : Bytes) → Keeps I (execute_noop param)
  unfolding execute_noop
  noop-Keeps param = write_message-Keeps inv _ _

  pub pwd-Keeps : (param : Bytes) → Keeps I (execute_pwd param)
  unfolding execute_pwd
  pwd-Keeps param = record { at = λ s h. (write_message-Keeps inv _ _).at s h }

  pub quit-Keeps : (param : Bytes) → Keeps I (execute_quit param)
  unfolding execute_quit
  quit-Keeps param = bind-Keeps (write_message-Keeps inv _ _) (λ _. close-Keeps inv)

  pub syst-Keeps : (param : Bytes) → Keeps I (execute_syst param)
  unfolding execute_syst
  syst-Keeps param = write_message-Keeps inv _ _

  pub user-Keeps : (param : Bytes) → Keeps I (execute_user param)
  unfolding execute_user
  user-Keeps param = record {
    at = λ s h. (write_message-Keeps inv _ _).at _ (inv.requested s param h);
  }

module _ {W : Type 0} {I : Session W → Type 0} (inv : Invariant I) (env : Env W) where
  answer_opts-Keeps : (words : List Bytes) → Keeps I (answer_opts env words)
  unfolding answer_opts
  answer_opts-Keeps [] = write_message-Keeps inv _ _
  answer_opts-Keeps (a ∷ []) = write_message-Keeps inv _ _
  answer_opts-Keeps (a ∷ b ∷ []) =
      if-Keeps (not (bytes_eq (to_upper env.unicode_upper a) (codes "UTF8")))
        (write_message-Keeps inv _ _)
        (if-Keeps (bytes_eq (to_upper env.unicode_upper b) (codes "ON"))
          (write_message-Keeps inv _ _) (write_message-Keeps inv _ _))
  answer_opts-Keeps (a ∷ b ∷ c ∷ r) = write_message-Keeps inv _ _

  pub opts-Keeps : (param : Bytes) → Keeps I (execute_opts env param)
  unfolding execute_opts
  opts-Keeps param = answer_opts-Keeps (fields param)

  pub pass-Keeps : (param : Bytes) → Keeps I (execute_pass env param)
  unfolding execute_pass
  pass-Keeps param = record { at = answered }
    where
      answered : (s : Session W) → I s → Post I (execute_pass env param s)
      answered s h =
          let r = env.check_passwd s.req_user param s.world in
          let h' = inv.moved s r.1 h in
          elim (Result-cases r.0) [
            | inl (true, e) ↦ rw e ((write_message-Keeps inv _ _).at _ (inv.accepted _ param h'))
            | inl (false, e) ↦
                rw e
                  ((write_message-Keeps inv _ _).at _ (inv.refused _ param (ok false) (λ q. cc) h'))
            | inr (t, e) ↦
                rw e ((write_message-Keeps inv _ _).at _ (inv.refused _ param (err t) (λ q. cc) h'))
          ]

  pub mode-Keeps : (param : Bytes) → Keeps I (execute_mode env param)
  unfolding execute_mode
  mode-Keeps param =
      if-Keeps (bytes_eq (to_upper env.unicode_upper param) (codes "S"))
        (write_message-Keeps inv _ _) (write_message-Keeps inv _ _)

  pub stru-Keeps : (param : Bytes) → Keeps I (execute_stru env param)
  unfolding execute_stru
  stru-Keeps param =
      if-Keeps (bytes_eq (to_upper env.unicode_upper param) (codes "F"))
        (write_message-Keeps inv _ _) (write_message-Keeps inv _ _)

  pub type-Keeps : (param : Bytes) → Keeps I (execute_type env param)
  unfolding execute_type
  type-Keeps param =
      if-Keeps (bytes_eq (to_upper env.unicode_upper param) (codes "A"))
        (write_message-Keeps inv _ _)
        (if-Keeps (bytes_eq (to_upper env.unicode_upper param) (codes "I"))
          (write_message-Keeps inv _ _) (write_message-Keeps inv _ _))
