-- ===== src/Ftpq/Rounds.antt =====
-- A round of a sub-connection leaves the count of its session right: every command of the table of
-- ftpq/cmd.go, and the end of the input.
use ftps_qftp_server.Prelude.{
  ℕ, inl, inr, Bool, true, false, ◌&&◌, none, some, List, [], ◌∷◌, All, Bool-cases, if◌then◌else◌,
}
use ftps_qftp_server.Text.{Bytes, codes, bytes_eq, to_upper}
use ftps_qftp_server.Ftps.Invariant.Table.{◌⊗◌}
use ftps_qftp_server.Ftpq.State.{
  tag, logged_command, QuicEnv, SubSession, SubOutcome, SubCommand, finished, crashed, blocked,
  pure,
}
use ftps_qftp_server.Ftpq.SubConn.{parse_line, write_message}
use ftps_qftp_server.Ftpq.Commands.{lookup_command, commands}
use ftps_qftp_server.Ftpq.Dispatch.{run_found, receive_line, terminate, end_of_input}
use ftps_qftp_server.Ftpq.Session.{Input, line_read, input_ended, serve_input}
use ftps_qftp_server.Ftpq.Quiet.{tally, write_message-IsQuiet}
use ftps_qftp_server.Ftpq.Quiet.Files.{
  allo-IsQuiet, noop-IsQuiet, syst-IsQuiet, feat-IsQuiet, hello-IsQuiet, pwd-IsQuiet, user-IsQuiet,
  rnfr-IsQuiet, appe-IsQuiet, rest-IsQuiet, opts-IsQuiet, mode-IsQuiet, stru-IsQuiet, type-IsQuiet,
  pass-IsQuiet, cwd-IsQuiet, cdup-IsQuiet, dele-IsQuiet, mkd-IsQuiet, rmd-IsQuiet, rnto-IsQuiet,
  mdtm-IsQuiet, size-IsQuiet,
}
use ftps_qftp_server.Ftpq.Quiet.Transfer.{list-IsQuiet, nlst-IsQuiet, retr-IsQuiet, stor-IsQuiet}
use ftps_qftp_server.Ftpq.Counting.{Leaves, Starts-Leaves, IsTurn, Owes, quiet-Owes, quit-Owes}

module _ {W : Type 0} (n a : ℕ) (held : Bool) (env : QuicEnv W) where
  -- In the order of the table.
  commands-Owes : All (λ row. (param : Bytes) → Owes n a held (row.1.execute param)) (commands env)
  unfolding commands
  commands-Owes =
      (λ p. quiet-Owes n a held (allo-IsQuiet p))
      ⊗ (λ p. quiet-Owes n a held (appe-IsQuiet p))
      ⊗ (λ p. quiet-Owes n a held (cdup-IsQuiet env p))
      ⊗ (λ p. quiet-Owes n a held (cwd-IsQuiet env p))
      ⊗ (λ p. quiet-Owes n a held (dele-IsQuiet env p))
      ⊗ (λ p. quiet-Owes n a held (feat-IsQuiet p))
      ⊗ (λ p. quiet-Owes n a held (hello-IsQuiet p))
      ⊗ (λ p. quiet-Owes n a held (list-IsQuiet env p))
      ⊗ (λ p. quiet-Owes n a held (nlst-IsQuiet env p))
      ⊗ (λ p. quiet-Owes n a held (mdtm-IsQuiet env p))
      ⊗ (λ p. quiet-Owes n a held (mkd-IsQuiet env p))
      ⊗ (λ p. quiet-Owes n a held (mode-IsQuiet env p))
      ⊗ (λ p. quiet-Owes n a held (noop-IsQuiet p))
      ⊗ (λ p. quiet-Owes n a held (opts-IsQuiet env p))
      ⊗ (λ p. quiet-Owes n a held (pass-IsQuiet env p))
      ⊗ (λ p. quiet-Owes n a held (pwd-IsQuiet p))
      ⊗ quit-Owes n a held env
      ⊗ (λ p. quiet-Owes n a held (retr-IsQuiet env p))
      ⊗ (λ p. quiet-Owes n a held (rest-IsQuiet p))
      ⊗ (λ p. quiet-Owes n a held (rnfr-IsQuiet p))
      ⊗ (λ p. quiet-Owes n a held (rnto-IsQuiet env p))
      ⊗ (λ p. quiet-Owes n a held (rmd-IsQuiet env p))
      ⊗ (λ p. quiet-Owes n a held (size-IsQuiet env p))
      ⊗ (λ p. quiet-Owes n a held (stor-IsQuiet env p))
      ⊗ (λ p. quiet-Owes n a held (stru-IsQuiet env p))
      ⊗ (λ p. quiet-Owes n a held (syst-IsQuiet p))
      ⊗ (λ p. quiet-Owes n a held (type-IsQuiet env p))
      ⊗ (λ p. quiet-Owes n a held (user-IsQuiet p))
      ⊗ (λ p. quiet-Owes n a held (cdup-IsQuiet env p))
      ⊗ (λ p. quiet-Owes n a held (cwd-IsQuiet env p))
      ⊗ (λ p. quiet-Owes n a held (pwd-IsQuiet p))
      ⊗ (λ p. quiet-Owes n a held (rmd-IsQuiet env p))
      ⊗ tt

  run_found-Owes :
      (key param : Bytes) (table : List (Bytes × SubCommand W))
      → All (λ row. (p : Bytes) → Owes n a held (row.1.execute p)) table
      → Owes n a held (run_found (lookup_command key table) param)
  unfolding run_found lookup_command
  run_found-Owes key param [] t s h =
      quiet-Owes n a held (write_message-IsQuiet 502 (codes "Command not found")) s h
  run_found-Owes key param ((name, command) ∷ table) (k, t) s h =
      elim (Bool-cases (bytes_eq name key)) [
        | inl d ↦ rw d (
            allowed (command.require_param && bytes_eq param [])
              (command.require_auth && bytes_eq s.user []))
        | inr d ↦ rw d (run_found-Owes key param table t s h)
      ]
    where
      allowed :
          (b c : Bool)
          → IsTurn n a held (
              (if b
                  then write_message 553 (codes "action aborted, required param missing")
                  else if c
                  then write_message 530 (codes "not logged in")
                  else command.execute param)
                s)
      allowed true c =
          quiet-Owes n a held
            (write_message-IsQuiet 553 (codes "action aborted, required param missing")) s h
      allowed false true =
          quiet-Owes n a held (write_message-IsQuiet 530 (codes "not logged in")) s h
      allowed false false = k param s h

  receive_line-Owes : (line : Bytes) → Owes n a held (receive_line env line)
  unfolding receive_line
  receive_line-Owes line s h =
      run_found-Owes (to_upper env.unicode_upper (parse_line line).0) (parse_line line).1
        (commands env) commands-Owes
        (record s {
          trace = logged_command (tag s.sub) (parse_line line).0 (parse_line line).1 ∷ s.trace;
        })
        (record {
          open_yet = h.open_yet;
          counted = h.counted;
          mutex = h.mutex;
          closed_so_far = h.closed_so_far;
        })

  last :
      (t : SubSession W) (b : Bool)
      → Leaves n a held (tally t)
      → IsTurn n a held ((if b then terminate else pure tt) t)
  unfolding terminate
  last t true h = record { counted = h.counted; fate = h.fate }
  last t false h = h

  ended :
      (o : SubOutcome W Unit)
      → IsTurn n a held o
      → IsTurn n a held (elim o [
        | finished u t ↦ (if t.sub.closed then terminate else pure tt) t
        | crashed fault t ↦ crashed fault t
        | blocked t ↦ blocked t
      ])
  unfolding terminate
  ended (finished u t) h = last t t.sub.closed h
  ended (crashed fault t) h = h
  ended (blocked t) h = h

  -- A round of a sub-connection leaves the count right.
  pub serve_input-IsTurn : (input : Input) → Owes n a held (serve_input env input)
  unfolding serve_input end_of_input terminate
  serve_input-IsTurn (input_ended none) s h =
      let l = Starts-Leaves n a held (tally s) h in record { counted = l.counted; fate = l.fate }
  serve_input-IsTurn (input_ended (some t)) s h =
      let l = Starts-Leaves n a held (tally s) h in record { counted = l.counted; fate = l.fate }
  serve_input-IsTurn (line_read line) s h = ended _ (receive_line-Owes line s h)
