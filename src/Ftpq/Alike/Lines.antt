-- ===== src/Ftpq/Alike/Lines.antt =====
-- A line with a command that both packages have does the same in both.
use mathlib.Core.Path.{subst}
use ftps_qftp_server.Prelude.{
  ◌≡◌, refl, sym, ap, ◌⊎◌, inl, inr, Bool, true, false, ◌&&◌, Option, none, some, List, [], ◌∷◌,
  All, if◌then◌else◌,
}
use ftps_qftp_server.Text.{Bytes, codes, bytes_eq, to_upper}
use ftps_qftp_server.Text.Scan.{trim}
use ftps_qftp_server.Text.Split.{split_two}
use ftps_qftp_server.Ftps.State.{Command, M}
use ftps_qftp_server.Ftps.Connection.{
  parse_line as ftps_parse_line, command_and_param as ftps_command_and_param,
  is_line_end as ftps_is_line_end, write_message as ftps_write_message,
}
use ftps_qftp_server.Ftps.Commands.{lookup_command as ftps_lookup, commands as ftps_commands}
use ftps_qftp_server.Ftps.Dispatch.{
  receive_line as ftps_receive_line, dispatch as ftps_dispatch, run_found as ftps_run_found,
  run_command as ftps_run_command,
}
use ftps_qftp_server.Ftps.Invariant.Table.{◌⊗◌}
use ftps_qftp_server.Ftpq.State.{QuicEnv, SubSession, SubCommand, Q, tag, logged_command}
use ftps_qftp_server.Ftpq.SubConn.{parse_line, command_and_param, is_line_end, write_message}
use ftps_qftp_server.Ftpq.Commands.{lookup_command, commands}
use ftps_qftp_server.Ftpq.Dispatch.{receive_line, dispatch, run_found, run_command}
use ftps_qftp_server.Ftpq.View.{view, view_env, IsAlike}
use ftps_qftp_server.Ftpq.Alike.Files.{
  rnfr-IsAlike, cwd-IsAlike, cdup-IsAlike, dele-IsAlike, mkd-IsAlike, rmd-IsAlike, rnto-IsAlike,
  mdtm-IsAlike, size-IsAlike,
}
use ftps_qftp_server.Ftpq.Alike.Control.{
  allo-IsAlike, feat-IsAlike, noop-IsAlike, pwd-IsAlike, syst-IsAlike, user-IsAlike, opts-IsAlike,
  pass-IsAlike, mode-IsAlike, stru-IsAlike, type-IsAlike,
}
use ftps_qftp_server.Ftpq.Alike.Transfer.{appe-IsAlike, rest-IsAlike}

-- The commands that both packages have and that move no data, with their second names.
abbrev pub common_keys : List Bytes
unfolding codes
common_keys =
    codes "ALLO"
    ∷ codes "APPE"
    ∷ codes "CDUP"
    ∷ codes "CWD"
    ∷ codes "DELE"
    ∷ codes "FEAT"
    ∷ codes "MDTM"
    ∷ codes "MKD"
    ∷ codes "MODE"
    ∷ codes "NOOP"
    ∷ codes "OPTS"
    ∷ codes "PASS"
    ∷ codes "PWD"
    ∷ codes "REST"
    ∷ codes "RNFR"
    ∷ codes "RNTO"
    ∷ codes "RMD"
    ∷ codes "SIZE"
    ∷ codes "STRU"
    ∷ codes "SYST"
    ∷ codes "TYPE"
    ∷ codes "USER"
    ∷ codes "XCUP"
    ∷ codes "XCWD"
    ∷ codes "XPWD"
    ∷ codes "XRMD"
    ∷ []

-- One of the texts of a list.
abbrev pub IsOneOf : Bytes → List Bytes → Type 0
IsOneOf key [] = ⊥
IsOneOf key (k ∷ keys) = (key ≡ k) ⊎ IsOneOf key keys

record IsLikeCommand {W : Type 0} (c : SubCommand W) (d : Command W) : Type 0 where
  param : c.require_param ≡ d.require_param
  auth : c.require_auth ≡ d.require_auth
  runs : (p : Bytes) (s : SubSession W) → IsAlike (c.execute p s) (d.execute p (view s))

abbrev IsLikeRow : {W : Type 0} → Option (SubCommand W) → Option (Command W) → Type 0
IsLikeRow (some c) (some d) = IsLikeCommand c d
IsLikeRow _ _ = ⊥

command_and_param-IsAlike :
    (words : List Bytes) → command_and_param words ≡ ftps_command_and_param words
unfolding command_and_param ftps_command_and_param
command_and_param-IsAlike [] = refl
command_and_param-IsAlike (a ∷ []) = refl
command_and_param-IsAlike (a ∷ b ∷ r) = refl

pub parse_line_alike : (line : Bytes) → parse_line line ≡ ftps_parse_line line
unfolding parse_line ftps_parse_line is_line_end ftps_is_line_end
parse_line_alike line = command_and_param-IsAlike (split_two (trim ftps_is_line_end line) b' ')

module _ {W : Type 0} where
  gate :
      (a b : Bool) (m m' : Q W Unit) (n n' : M W Unit) (s : SubSession W)
      → a ≡ b
      → IsAlike (m s) (n (view s))
      → IsAlike (m' s) (n' (view s))
      → IsAlike ((if a then m else m') s) ((if b then n else n') (view s))
  gate true true m m' n n' s e h h' = h
  gate false false m m' n n' s e h h' = h'
  gate true false m m' n n' s e h h' = cc
  gate false true m m' n n' s e h h' = cc

  found-IsAlike :
      (o : Option (SubCommand W)) (o' : Option (Command W)) (param : Bytes) (s : SubSession W)
      → IsLikeRow o o'
      → IsAlike (run_found o param s) (ftps_run_found o' param (view s))
  unfolding run_found ftps_run_found run_command ftps_run_command write_message ftps_write_message
  found-IsAlike none o' param s k = absurd k
  found-IsAlike (some c) none param s k = absurd k
  found-IsAlike (some c) (some d) param s k =
      gate (c.require_param && bytes_eq param []) (d.require_param && bytes_eq param []) _ _ _ _ s
        (ap (λ b. b && bytes_eq param []) k.param) refl
        (gate (c.require_auth && bytes_eq s.user []) (d.require_auth && bytes_eq s.user []) _ _ _ _
          s (ap (λ b. b && bytes_eq s.user []) k.auth) refl (k.runs param s))

module _ {W : Type 0} (env : QuicEnv W) where
  row :
      {c : SubCommand W} {d : Command W}
      → ((p : Bytes) (s : SubSession W) → IsAlike (c.execute p s) (d.execute p (view s)))
      → c.require_param ≡ d.require_param
      → c.require_auth ≡ d.require_auth
      → IsLikeCommand c d
  row k p a = record { param = p; auth = a; runs = k }

  common_alike :
      All
        (λ key.
          IsLikeRow
            (lookup_command key (commands env))
            (ftps_lookup key (ftps_commands (view_env env))))
        common_keys
  unfolding lookup_command ftps_lookup commands ftps_commands codes bytes_eq
  common_alike =
      row (λ p s. allo-IsAlike s p) refl refl
      ⊗ row (λ p s. appe-IsAlike s p) refl refl
      ⊗ row (λ p s. cdup-IsAlike env s p) refl refl
      ⊗ row (λ p s. cwd-IsAlike env s p) refl refl
      ⊗ row (λ p s. dele-IsAlike env s p) refl refl
      ⊗ row (λ p s. feat-IsAlike s p) refl refl
      ⊗ row (λ p s. mdtm-IsAlike env s p) refl refl
      ⊗ row (λ p s. mkd-IsAlike env s p) refl refl
      ⊗ row (λ p s. mode-IsAlike env s p) refl refl
      ⊗ row (λ p s. noop-IsAlike s p) refl refl
      ⊗ row (λ p s. opts-IsAlike env s p) refl refl
      ⊗ row (λ p s. pass-IsAlike env s p) refl refl
      ⊗ row (λ p s. pwd-IsAlike s p) refl refl
      ⊗ row (λ p s. rest-IsAlike s p) refl refl
      ⊗ row (λ p s. rnfr-IsAlike s p) refl refl
      ⊗ row (λ p s. rnto-IsAlike env s p) refl refl
      ⊗ row (λ p s. rmd-IsAlike env s p) refl refl
      ⊗ row (λ p s. size-IsAlike env s p) refl refl
      ⊗ row (λ p s. stru-IsAlike env s p) refl refl
      ⊗ row (λ p s. syst-IsAlike s p) refl refl
      ⊗ row (λ p s. type-IsAlike env s p) refl refl
      ⊗ row (λ p s. user-IsAlike s p) refl refl
      ⊗ row (λ p s. cdup-IsAlike env s p) refl refl
      ⊗ row (λ p s. cwd-IsAlike env s p) refl refl
      ⊗ row (λ p s. pwd-IsAlike s p) refl refl
      ⊗ row (λ p s. rmd-IsAlike env s p) refl refl
      ⊗ tt

  pick :
      (P : Bytes → Type 0) (keys : List Bytes) (key : Bytes) → All P keys → IsOneOf key keys → P key
  pick P [] key h m = absurd m
  pick P (k ∷ keys) key (hk, h) (inl e) = subst P (sym e) hk
  pick P (k ∷ keys) key (hk, h) (inr m) = pick P keys key h m

  dispatch-IsAlike :
      (words : Bytes × Bytes) (s : SubSession W)
      → IsOneOf (to_upper env.unicode_upper words.0) common_keys
      → IsAlike (dispatch env words s) (ftps_dispatch (view_env env) words (view s))
  unfolding dispatch ftps_dispatch
  dispatch-IsAlike (command, param) s m =
      found-IsAlike _ _ param
        (record s { trace = logged_command (tag s.sub) command param ∷ s.trace })
        (pick
          (λ key.
            IsLikeRow (lookup_command key (commands env))
              (ftps_lookup key (ftps_commands (view_env env))))
          common_keys (to_upper env.unicode_upper command) common_alike m)

  -- A line whose command is, in capital letters, one of the commands that both packages have and that
  -- move no data, is answered by a sub-connection as by the connection of `ftps` as which it is seen:
  -- with the same calls of the driver and the auth, the same answers, the same lines of the log, the
  -- same panic and the same state behind it, and it never waits for the mutex of the session.
  pub receive_line-IsAlike :
      (line : Bytes) (s : SubSession W)
      → IsOneOf (to_upper env.unicode_upper (parse_line line).0) common_keys
      → IsAlike (receive_line env line s) (ftps_receive_line (view_env env) line (view s))
  unfolding receive_line ftps_receive_line
  receive_line-IsAlike line s m =
      subst
        (λ words.
          IsAlike (dispatch env (parse_line line) s) (ftps_dispatch (view_env env) words (view s)))
        (parse_line_alike line) (dispatch-IsAlike (parse_line line) s m)
