-- ===== src/Ftps/Invariant/Files.antt =====
-- The commands of Commands/Files keep every invariant of a connection that confines its paths.
use ftps_qftp_server.Prelude.{inl, inr, none, some, refl}
use ftps_qftp_server.Text.{Bytes, codes}
use ftps_qftp_server.Driver.{
  Result-cases, stat_call, change_dir_call, delete_dir_call, delete_file_call, make_dir_call,
  rename_call, DriverCall,
}
use ftps_qftp_server.FilePath.Sandbox.{IsSandboxed}
use ftps_qftp_server.Ftps.State.{Socket, Env, Session, called}
use ftps_qftp_server.Ftps.Connection.{build_path}
use ftps_qftp_server.Ftps.Paths.{build_path-IsSandboxed}
use ftps_qftp_server.Ftps.Commands.Files.{
  execute_cwd, execute_cdup, execute_dele, execute_mkd, execute_rmd, execute_rnfr, execute_rnto,
  execute_mdtm, execute_size,
}
use ftps_qftp_server.Ftps.Invariant.{PathInvariant, IsConfinedCall, Post, with_event}
use ftps_qftp_server.Ftps.Invariant.Rules.{Keeps, write_message-Keeps}

module _ {W : Type 0} {I : Session W → Type 0} (inv : PathInvariant I) where
  -- A path that a command builds is one of the tree.
  pub built : (param : Bytes) (s : Session W) → I s → IsSandboxed (build_path s.conn param)
  built param s h = build_path-IsSandboxed s.conn param (inv.in_tree s h)

  -- The state behind a call of the driver.
  pub behind_call :
      (s : Session W) (c : DriverCall Socket) (w : W)
      → IsConfinedCall c
      → I s
      → I (record (with_event (called c) s) { world = w })
  behind_call s c w k h = inv.moved _ w (inv.calls s c k h)

  pub rnfr-Keeps : (param : Bytes) → Keeps I (execute_rnfr param)
  unfolding execute_rnfr
  rnfr-Keeps param = record {
    at =
        λ s h. (write_message-Keeps inv.base _ _).at _ (inv.renaming s _ (inr (built param s h)) h);
  }

module _ {W : Type 0} {I : Session W → Type 0} (inv : PathInvariant I) (env : Env W) where
  pub cwd-Keeps : (param : Bytes) → Keeps I (execute_cwd env param)
  unfolding execute_cwd
  cwd-Keeps param = record { at = answered }
    where
      answered : (s : Session W) → I s → Post I (execute_cwd env param s)
      answered s h =
          let path = build_path s.conn param in
          let k = built inv param s h in
          let r = env.change_dir path s.world in
          let h' = behind_call inv s (change_dir_call path) r.1 k h in
          elim (Result-cases r.0) [
            | inl (u, e) ↦ rw e ((write_message-Keeps inv.base _ _).at _ (inv.entered _ path k h'))
            | inr (t, e) ↦ rw e ((write_message-Keeps inv.base _ _).at _ h')
          ]

  pub cdup-Keeps : (param : Bytes) → Keeps I (execute_cdup env param)
  unfolding execute_cdup
  cdup-Keeps param = cwd-Keeps (codes "..")

  pub dele-Keeps : (param : Bytes) → Keeps I (execute_dele env param)
  unfolding execute_dele
  dele-Keeps param = record { at = answered }
    where
      answered : (s : Session W) → I s → Post I (execute_dele env param s)
      answered s h =
          let path = build_path s.conn param in
          let r = env.delete_file path s.world in
          let h' = behind_call inv s (delete_file_call path) r.1 (built inv param s h) h in
          elim (Result-cases r.0) [
            | inl (u, e) ↦ rw e ((write_message-Keeps inv.base _ _).at _ h')
            | inr (t, e) ↦ rw e ((write_message-Keeps inv.base _ _).at _ h')
          ]

  pub mkd-Keeps : (param : Bytes) → Keeps I (execute_mkd env param)
  unfolding execute_mkd
  mkd-Keeps param = record { at = answered }
    where
      answered : (s : Session W) → I s → Post I (execute_mkd env param s)
      answered s h =
          let path = build_path s.conn param in
          let r = env.make_dir path s.world in
          let h' = behind_call inv s (make_dir_call path) r.1 (built inv param s h) h in
          elim (Result-cases r.0) [
            | inl (u, e) ↦ rw e ((write_message-Keeps inv.base _ _).at _ h')
            | inr (t, e) ↦ rw e ((write_message-Keeps inv.base _ _).at _ h')
          ]

  pub rmd-Keeps : (param : Bytes) → Keeps I (execute_rmd env param)
  unfolding execute_rmd
  rmd-Keeps param = record { at = answered }
    where
      answered : (s : Session W) → I s → Post I (execute_rmd env param s)
      answered s h =
          let path = build_path s.conn param in
          let r = env.delete_dir path s.world in
          let h' = behind_call inv s (delete_dir_call path) r.1 (built inv param s h) h in
          elim (Result-cases r.0) [
            | inl (u, e) ↦ rw e ((write_message-Keeps inv.base _ _).at _ h')
            | inr (t, e) ↦ rw e ((write_message-Keeps inv.base _ _).at _ h')
          ]

  -- The pending path is forgotten behind the answer, whatever that is.
  pub rnto-Keeps : (param : Bytes) → Keeps I (execute_rnto env param)
  unfolding execute_rnto
  rnto-Keeps param = record { at = answered }
    where
      answered : (s : Session W) → I s → Post I (execute_rnto env param s)
      answered s h =
          let path = build_path s.conn param in
          let r = env.rename s.rename_from path s.world in
          let h' =
            behind_call inv s (rename_call s.rename_from path) r.1
              (inv.pending_in_tree s h, built inv param s h) h in
          elim (Result-cases r.0) [
            | inl (u, e) ↦
                rw e (inv.renaming _ _ (inl refl) (inv.quiet _ _ tt (inv.quiet _ _ tt h')))
            | inr (t, e) ↦
                rw e (inv.renaming _ _ (inl refl) (inv.quiet _ _ tt (inv.quiet _ _ tt h')))
          ]

  pub mdtm-Keeps : (param : Bytes) → Keeps I (execute_mdtm env param)
  unfolding execute_mdtm
  mdtm-Keeps param = record { at = answered }
    where
      answered : (s : Session W) → I s → Post I (execute_mdtm env param s)
      answered s h =
          let path = build_path s.conn param in
          let r = env.stat path s.world in
          let h' = behind_call inv s (stat_call path) r.1 (built inv param s h) h in
          elim (Result-cases r.0) [
            | inl (none, e) ↦ rw e h'
            | inl (some info, e) ↦ rw e ((write_message-Keeps inv.base _ _).at _ h')
            | inr (t, e) ↦ rw e ((write_message-Keeps inv.base _ _).at _ h')
          ]

  pub size-Keeps : (param : Bytes) → Keeps I (execute_size env param)
  unfolding execute_size
  size-Keeps param = record { at = answered }
    where
      answered : (s : Session W) → I s → Post I (execute_size env param s)
      answered s h =
          let path = build_path s.conn param in
          let r = env.stat path s.world in
          let h' = behind_call inv s (stat_call path) r.1 (built inv param s h) h in
          elim (Result-cases r.0) [
            | inl (none, e) ↦ rw e h'
            | inl (some info, e) ↦ rw e ((write_message-Keeps inv.base _ _).at _ h')
            | inr (t, e) ↦ rw e ((write_message-Keeps inv.base _ _).at _ (inv.quiet _ _ tt h'))
          ]
