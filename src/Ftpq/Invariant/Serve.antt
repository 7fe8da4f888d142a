-- ===== src/Ftpq/Invariant/Serve.antt =====
-- A line that a sub-connection receives, and the loop over its lines, keep an invariant.
use ftps_qftp_server.Prelude.{
  ◌≡◌, ◌⊎◌, inl, inr, true, ◌&&◌, Option, none, some, List, [], ◌∷◌, ◌++◌, All, Bool-cases,
  if◌then◌else◌,
}
use ftps_qftp_server.Text.{Bytes, codes, bytes_eq, to_upper}
use ftps_qftp_server.Ftps.State.{Session}
use ftps_qftp_server.Ftps.Invariant.{Invariant, PathInvariant}
use ftps_qftp_server.Ftpq.State.{tag, logged, QuicEnv, SubSession, SubCommand}
use ftps_qftp_server.Ftpq.SubConn.{parse_line, write_message}
use ftps_qftp_server.Ftpq.Commands.{lookup_command, commands}
use ftps_qftp_server.Ftpq.Dispatch.{run_found, receive_line, terminate, end_of_input, serve}
use ftps_qftp_server.Ftpq.View.{view, SubPost}
use ftps_qftp_server.Ftpq.Invariant.{SubKeeps, if-SubKeeps, bind-SubKeeps, write_message-SubKeeps}
use ftps_qftp_server.Ftpq.Invariant.Table.{commands-SubKeeps, open_commands-SubKeeps}

module _ {W : Type 0} {I : Session W → Type 0} (inv : PathInvariant I) where
  run_found-SubKeeps :
      (key param : Bytes) (table : List (Bytes × SubCommand W))
      → All (λ row. (p : Bytes) → SubKeeps I (row.1.execute p)) table
      → (s : SubSession W) → I (view s)
      → SubPost (λ t. I (view t)) (run_found (lookup_command key table) param s)
  unfolding run_found lookup_command
  run_found-SubKeeps key param [] t s h = (write_message-SubKeeps inv.base _ _).at s h
  run_found-SubKeeps key param ((name, command) ∷ table) (k, t) s h =
      elim (Bool-cases (bytes_eq name key)) [
        | inl e ↦ rw e (
            (if-SubKeeps (command.require_param && bytes_eq param [])
                (write_message-SubKeeps inv.base _ _)
                (if-SubKeeps (command.require_auth && bytes_eq s.user [])
                  (write_message-SubKeeps inv.base _ _) (k param))).at
              s h)
        | inr e ↦ rw e (run_found-SubKeeps key param table t s h)
      ]

  -- A line keeps every invariant that confines the paths, whoever sends it.
  pub receive_line-SubKeeps : (env : QuicEnv W) (line : Bytes) → SubKeeps I (receive_line env line)
  unfolding receive_line
  receive_line-SubKeeps env line = record {
    at = λ s h.
        run_found-SubKeeps (to_upper env.unicode_upper (parse_line line).0) (parse_line line).1
          (commands env) (commands-SubKeeps inv env) _ (inv.quiet (view s) _ tt h);
  }

module _ {W : Type 0} {I : Session W → Type 0} (inv : Invariant I) where
  open_found-SubKeeps :
      (key param : Bytes) (table : List (Bytes × SubCommand W))
      → All
          (λ row. (row.1.require_auth ≡ true) ⊎ ((p : Bytes) → SubKeeps I (row.1.execute p)))
          table
      → (s : SubSession W) → bytes_eq s.user [] ≡ true
      → I (view s)
      → SubPost (λ t. I (view t)) (run_found (lookup_command key table) param s)
  unfolding run_found lookup_command
  open_found-SubKeeps key param [] t s u h = (write_message-SubKeeps inv _ _).at s h
  open_found-SubKeeps key param ((name, command) ∷ table) (k, t) s u h =
      elim (Bool-cases (bytes_eq name key)) [
        | inl e ↦ rw e (
            (if-SubKeeps (command.require_param && bytes_eq param [])
                (write_message-SubKeeps inv _ _) (admitted k)).at
              s h)
        | inr e ↦ rw e (open_found-SubKeeps key param table t s u h)
      ]
    where
      admitted :
          (command.require_auth ≡ true) ⊎ ((p : Bytes) → SubKeeps I (command.execute p))
          → SubKeeps I (
              if command.require_auth && bytes_eq s.user []
              then write_message 530 (codes "not logged in")
              else command.execute param)
      admitted (inl a) = rw (a, u) (write_message-SubKeeps inv _ _)
      admitted (inr k) =
          if-SubKeeps (command.require_auth && bytes_eq s.user []) (write_message-SubKeeps inv _ _)
            (k param)

  -- With no user logged in the laws for the open commands are enough.
  pub receive_line_open :
      (env : QuicEnv W) (line : Bytes) (s : SubSession W)
      → bytes_eq s.user [] ≡ true
      → I (view s)
      → SubPost (λ t. I (view t)) (receive_line env line s)
  unfolding receive_line
  receive_line_open env line s u h =
      open_found-SubKeeps (to_upper env.unicode_upper (parse_line line).0) (parse_line line).1
        (commands env) (open_commands-SubKeeps inv env) _ u (inv.quiet (view s) _ tt h)

  terminate-SubKeeps : SubKeeps I (terminate {W = W})
  unfolding terminate
  terminate-SubKeeps = record { at = λ s h. inv.quiet (view s) _ tt h }

  end_of_input-SubKeeps : (failure : Option Bytes) → SubKeeps I (end_of_input {W = W} failure)
  unfolding end_of_input codes
  end_of_input-SubKeeps none = terminate-SubKeeps
  end_of_input-SubKeeps (some e) = record {
    at = λ s h.
        terminate-SubKeeps.at
          (record s { trace = logged (tag s.sub) (codes "read error:" ++ e) ∷ s.trace })
          (inv.quiet (view s) _ tt h);
  }

  -- If every line keeps an invariant, the sub-connection does.
  pub serve-SubKeeps :
      (env : QuicEnv W)
      → ((line : Bytes) → SubKeeps I (receive_line env line))
      → (lines : List Bytes) (failure : Option Bytes) → SubKeeps I (serve env lines failure)
  unfolding serve
  serve-SubKeeps env k [] failure = end_of_input-SubKeeps failure
  serve-SubKeeps env k (line ∷ lines) failure =
      let rest = serve-SubKeeps env k lines failure in
      bind-SubKeeps (k line)
        (λ _. record { at = λ s h. (if-SubKeeps s.closed terminate-SubKeeps rest).at s h })
