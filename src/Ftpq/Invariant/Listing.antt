-- ===== src/Ftpq/Invariant/Listing.antt =====
-- LIST and NLST keep every invariant that confines the paths.
use ftps_qftp_server.Prelude.{inl, inr, Bool, true, false, none, some, List, [], ◌∷◌}
use ftps_qftp_server.Text.{Bytes}
use ftps_qftp_server.Driver.{Result, ok, err, FileInfo, Result-cases, stat_call, list_dir_call}
use ftps_qftp_server.Listing.{short, detailed}
use ftps_qftp_server.FilePath.Sandbox.{IsSandboxed}
use ftps_qftp_server.Ftps.State.{Session}
use ftps_qftp_server.Ftps.Invariant.{PathInvariant}
use ftps_qftp_server.Ftpq.State.{StreamId, QuicEnv, SubSession}
use ftps_qftp_server.Ftpq.SubConn.{build_path}
use ftps_qftp_server.Ftpq.Commands.Transfer.{
  parse_list_param, answer_listing, send_listing, list_directory, answer_list, execute_list,
  answer_nlst, execute_nlst,
}
use ftps_qftp_server.Ftpq.View.{view, SubPost}
use ftps_qftp_server.Ftpq.Invariant.{SubKeeps, bind-SubKeeps, write_message-SubKeeps}
use ftps_qftp_server.Ftpq.Invariant.Streams.{
  behind, built, behind_call, send-SubKeeps, send_outofband-SubKeeps,
}

module _ {W : Type 0} {I : Session W → Type 0} (inv : PathInvariant I) (env : QuicEnv W) where
  answer_listing-SubKeeps :
      (listing : Bytes) (r : Result StreamId) → SubKeeps I (answer_listing env listing r)
  unfolding answer_listing
  answer_listing-SubKeeps listing (err e) = write_message-SubKeeps inv.base _ _
  answer_listing-SubKeeps listing (ok stream) =
      bind-SubKeeps (write_message-SubKeeps inv.base _ _)
        (λ _. (send_outofband-SubKeeps inv env) listing stream)

  send_listing-SubKeeps : (listing : Bytes) → SubKeeps I (send_listing env listing)
  unfolding send_listing
  send_listing-SubKeeps listing =
      bind-SubKeeps (send-SubKeeps inv env) (answer_listing-SubKeeps listing)

  list_directory-SubPost :
      (format : List FileInfo → Bytes) (path : Bytes) (s : SubSession W)
      → IsSandboxed path
      → I (view s)
      → SubPost (λ t. I (view t)) (list_directory env format path s)
  unfolding list_directory
  list_directory-SubPost format path s k h =
      let h' = behind_call inv s (list_dir_call path) (env.list_dir path s.world).1 k h in
      elim (Result-cases (env.list_dir path s.world).0) [
        | inl (files, e) ↦ rw e (
            (send_listing-SubKeeps (format files)).at
              (behind s (list_dir_call path) (env.list_dir path s.world).1) h')
        | inr (t, e) ↦ rw e (
            (write_message-SubKeeps inv.base _ _).at
              (behind s (list_dir_call path) (env.list_dir path s.world).1) h')
      ]

  answer_list-SubPost :
      (is_dir : Bool) (info : FileInfo) (path : Bytes) (s : SubSession W)
      → IsSandboxed path
      → I (view s)
      → SubPost (λ t. I (view t)) (answer_list env is_dir info path s)
  unfolding answer_list
  answer_list-SubPost true info path s k h = list_directory-SubPost detailed path s k h
  answer_list-SubPost false info path s k h = (send_listing-SubKeeps (detailed (info ∷ []))).at s h

  answer_nlst-SubPost :
      (is_dir : Bool) (param path : Bytes) (s : SubSession W)
      → IsSandboxed path
      → I (view s)
      → SubPost (λ t. I (view t)) (answer_nlst env is_dir param path s)
  unfolding answer_nlst
  answer_nlst-SubPost true param path s k h = list_directory-SubPost short path s k h
  answer_nlst-SubPost false param path s k h = (write_message-SubKeeps inv.base _ _).at s h

  list-SubPost :
      (param : Bytes) (s : SubSession W)
      → I (view s)
      → SubPost (λ t. I (view t)) (execute_list env param s)
  unfolding execute_list
  list-SubPost param s h =
      let path = build_path s.sub (parse_list_param param) in
      let k = built inv (parse_list_param param) s h in
      let h' = behind_call inv s (stat_call path) (env.stat path s.world).1 k h in
      elim (Result-cases (env.stat path s.world).0) [
        | inl (none, e) ↦ rw e (inv.quiet _ _ tt h')
        | inl (some info, e) ↦ rw e (answer_list-SubPost info.is_dir info path _ k h')
        | inr (t, e) ↦ rw e (
            (write_message-SubKeeps inv.base _ _).at
              (behind s (stat_call path) (env.stat path s.world).1) h')
      ]

  pub list-SubKeeps : (param : Bytes) → SubKeeps I (execute_list env param)
  list-SubKeeps param = record { at = list-SubPost param }

  nlst-SubPost :
      (param : Bytes) (s : SubSession W)
      → I (view s)
      → SubPost (λ t. I (view t)) (execute_nlst env param s)
  unfolding execute_nlst
  nlst-SubPost param s h =
      let path = build_path s.sub (parse_list_param param) in
      let k = built inv (parse_list_param param) s h in
      let h' = behind_call inv s (stat_call path) (env.stat path s.world).1 k h in
      elim (Result-cases (env.stat path s.world).0) [
        | inl (none, e) ↦ rw e h'
        | inl (some info, e) ↦ rw e (answer_nlst-SubPost info.is_dir param path _ k h')
        | inr (t, e) ↦ rw e (
            (write_message-SubKeeps inv.base _ _).at
              (behind s (stat_call path) (env.stat path s.world).1) h')
      ]

  pub nlst-SubKeeps : (param : Bytes) → SubKeeps I (execute_nlst env param)
  nlst-SubKeeps param = record { at = nlst-SubPost param }
