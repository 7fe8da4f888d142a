-- ===== src/Ftps/Invariant/Serve.antt =====
-- A line that is received, and a whole connection, keep an invariant.
use ftps_qftp_server.Prelude.{
  ◌≡◌, ◌⊎◌, inl, inr, true, ◌&&◌, Option, none, some, List, [], ◌∷◌, All, Bool-cases, if◌then◌else◌,
}
use ftps_qftp_server.Text.{Bytes, codes, bytes_eq, to_upper}
use ftps_qftp_server.Ftps.State.{Env, Session, Command}
use ftps_qftp_server.Ftps.Connection.{parse_line, write_message}
use ftps_qftp_server.Ftps.Commands.{lookup_command, commands}
use ftps_qftp_server.Ftps.Dispatch.{
  run_found, receive_line, terminate, end_of_input, serve_lines, serve,
}
use ftps_qftp_server.Ftps.Invariant.{Invariant, PathInvariant, Post}
use ftps_qftp_server.Ftps.Invariant.Rules.{
  Keeps, write_message-Keeps, close-Keeps, if-Keeps, bind-Keeps,
}
use ftps_qftp_server.Ftps.Invariant.Table.{commands-Keeps, open_commands-Keeps}

module _ {W : Type 0} {I : Session W → Type 0} (inv : PathInvariant I) where
  run_found-Keeps :
      (key param : Bytes) (table : List (Bytes × Command W))
      → All (λ row. (p : Bytes) → Keeps I (row.1.execute p)) table
      → (s : Session W) → I s
      → Post I (run_found (lookup_command key table) param s)
  unfolding run_found lookup_command
  run_found-Keeps key param [] t s h = (write_message-Keeps inv.base _ _).at s h
  run_found-Keeps key param ((name, command) ∷ table) (k, t) s h =
      elim (Bool-cases (bytes_eq name key)) [
        | inl e ↦ rw e (
            (if-Keeps (command.require_param && bytes_eq param [])
                (write_message-Keeps inv.base _ _)
                (if-Keeps (command.require_auth && bytes_eq s.user [])
                  (write_message-Keeps inv.base _ _) (k param))).at
              s h)
        | inr e ↦ rw e (run_found-Keeps key param table t s h)
      ]

  -- A line keeps every invariant that confines the paths, whoever sends it.
  pub receive_line-Keeps : (env : Env W) (line : Bytes) → Keeps I (receive_line env line)
  unfolding receive_line
  receive_line-Keeps env line = record {
    at = λ s h.
        run_found-Keeps (to_upper env.unicode_upper (parse_line line).0) (parse_line line).1
          (commands env) (commands-Keeps inv env) _ (inv.quiet s _ tt h);
  }

module _ {W : Type 0} {I : Session W → Type 0} (inv : Invariant I) where
  open_found-Keeps :
      (key param : Bytes) (table : List (Bytes × Command W))
      → All (λ row. (row.1.require_auth ≡ true) ⊎ ((p : Bytes) → Keeps I (row.1.execute p))) table
      → (s : Session W) → bytes_eq s.user [] ≡ true
      → I s
      → Post I (run_found (lookup_command key table) param s)
  unfolding run_found lookup_command
  open_found-Keeps key param [] t s u h = (write_message-Keeps inv _ _).at s h
  open_found-Keeps key param ((name, command) ∷ table) (k, t) s u h =
      elim (Bool-cases (bytes_eq name key)) [
        | inl e ↦ rw e (
            (if-Keeps (command.require_param && bytes_eq param []) (write_message-Keeps inv _ _)
                (admitted k)).at
              s h)
        | inr e ↦ rw e (open_found-Keeps key param table t s u h)
      ]
    where
      admitted :
          (command.require_auth ≡ true) ⊎ ((p : Bytes) → Keeps I (command.execute p))
          → Keeps I (
              if command.require_auth && bytes_eq s.user []
              then write_message 530 (codes "not logged in")
              else command.execute param)
      admitted (inl a) = rw (a, u) (write_message-Keeps inv _ _)
      admitted (inr k) =
          if-Keeps (command.require_auth && bytes_eq s.user []) (write_message-Keeps inv _ _)
            (k param)

  -- With no user logged in the laws for the open commands are enough.
  pub receive_line_open :
      (env : Env W) (line : Bytes) (s : Session W)
      → bytes_eq s.user [] ≡ true
      → I s
      → Post I (receive_line env line s)
  unfolding receive_line
  receive_line_open env line s u h =
      open_found-Keeps (to_upper env.unicode_upper (parse_line line).0) (parse_line line).1
        (commands env) (open_commands-Keeps inv env) _ u (inv.quiet s _ tt h)

  terminate-Keeps : Keeps I terminate
  unfolding terminate
  terminate-Keeps = bind-Keeps (close-Keeps inv) (λ _. record { at = λ s h. inv.quiet s _ tt h })

  end_of_input-Keeps : (failure : Option Bytes) → Keeps I (end_of_input failure)
  unfolding end_of_input
  end_of_input-Keeps none = terminate-Keeps
  end_of_input-Keeps (some e) = record { at = λ s h. terminate-Keeps.at _ (inv.quiet s _ tt h) }

  -- If every line keeps an invariant, the connection does.
  pub serve_lines-Keeps :
      (env : Env W)
      → ((line : Bytes) → Keeps I (receive_line env line))
      → (lines : List Bytes) (failure : Option Bytes) → Keeps I (serve_lines env lines failure)
  unfolding serve_lines
  serve_lines-Keeps env k [] failure = end_of_input-Keeps failure
  serve_lines-Keeps env k (line ∷ lines) failure =
      let rest = serve_lines-Keeps env k lines failure in
      bind-Keeps (k line)
        (λ _. record { at = λ s h. (if-Keeps s.closed terminate-Keeps rest).at s h })

  pub serve-Keeps :
      (env : Env W)
      → ((line : Bytes) → Keeps I (receive_line env line))
      → (lines : List Bytes) (failure : Option Bytes) → Keeps I (serve env lines failure)
  unfolding serve
  serve-Keeps env k lines failure = record {
    at = λ s h.
        (bind-Keeps (write_message-Keeps inv 220 s.server.welcome_message)
            (λ _. serve_lines-Keeps env k lines failure)).at
          _ (inv.quiet s _ tt h);
  }
