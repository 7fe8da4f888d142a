-- ===== src/Ftpq/Commands/Control.antt =====
-- ftpq/cmd.go: the commands that concern the control stream and the user.
use ftps_qftp_server.Prelude.{true, false, not, List, [], ◌∷◌, ◌++◌, if◌then◌else◌}
use ftps_qftp_server.Text.{Bytes, codes, bytes_eq, to_upper}
use ftps_qftp_server.Text.Scan.{fields}
use ftps_qftp_server.Driver.{ok, err}
use ftps_qftp_server.Ftpq.State.{
  password_checked, QuicEnv, Q, ◌>>=◌, ◌>>◌, gets, modify, emit, ask, gets_shared, SubCommand,
}
use ftps_qftp_server.Ftpq.SubConn.{
  write_message, write_message_multiline, close, report_sub_conn_finished,
}

module _ {W : Type 0} where
  unfoldable pub execute_allo : Bytes → Q W Unit
  unfolding write_message codes
  execute_allo param = write_message 202 (codes "Obsolete")

  unfoldable pub command_allo : SubCommand W
  command_allo = record {
    is_extend = false;
    require_param = false;
    require_auth = false;
    execute = execute_allo;
  }

  unfoldable pub execute_feat : Bytes → Q W Unit
  unfolding write_message_multiline
  execute_feat param = do
    feats ← gets_shared (λ c. c.server.feats)
    write_message_multiline 211 feats

  unfoldable pub command_feat : SubCommand W
  command_feat = record {
    is_extend = false;
    require_param = false;
    require_auth = false;
    execute = execute_feat;
  }

  unfoldable pub execute_noop : Bytes → Q W Unit
  unfolding write_message codes
  execute_noop param = write_message 200 (codes "OK")

  unfoldable pub command_noop : SubCommand W
  command_noop = record {
    is_extend = false;
    require_param = false;
    require_auth = false;
    execute = execute_noop;
  }

  unfoldable pub execute_pwd : Bytes → Q W Unit
  unfolding write_message codes
  execute_pwd param = do
    prefix ← gets (λ c. c.name_prefix)
    write_message 257 (codes "\"" ++ (prefix ++ codes "\" is the current directory"))

  unfoldable pub command_pwd : SubCommand W
  command_pwd = record {
    is_extend = false;
    require_param = false;
    require_auth = true;
    execute = execute_pwd;
  }

  unfoldable pub execute_hello : Bytes → Q W Unit
  unfolding write_message
  execute_hello param = do
    welcome ← gets_shared (λ c. c.server.welcome_message)
    write_message 220 welcome

  unfoldable pub command_hello : SubCommand W
  command_hello = record {
    is_extend = false;
    require_param = false;
    require_auth = false;
    execute = execute_hello;
  }

  unfoldable pub execute_syst : Bytes → Q W Unit
  unfolding write_message codes
  execute_syst param = write_message 215 (codes "UNIX Type: L8")

  unfoldable pub command_syst : SubCommand W
  command_syst = record {
    is_extend = false;
    require_param = false;
    require_auth = true;
    execute = execute_syst;
  }

  unfoldable pub execute_user : Bytes → Q W Unit
  unfolding write_message codes
  execute_user param = do
    modify (λ c. record c { req_user = param })
    write_message 331 (codes "User name ok, password required")

  unfoldable pub command_user : SubCommand W
  command_user = record {
    is_extend = false;
    require_param = true;
    require_auth = false;
    execute = execute_user;
  }

module _ {W : Type 0} (env : QuicEnv W) where
  -- The tests of OPTS on its two words.
  unfoldable pub answer_opts : List Bytes → Q W Unit
  unfolding write_message codes bytes_eq
  answer_opts (name ∷ value ∷ []) =
      if not (bytes_eq (to_upper env.unicode_upper name) (codes "UTF8"))
      then write_message 550 (codes "Unknow params")
      else if bytes_eq (to_upper env.unicode_upper value) (codes "ON")
      then write_message 200 (codes "UTF8 mode enabled")
      else write_message 550 (codes "Unsupported non-utf8 mode")
  answer_opts _ = write_message 550 (codes "Unknow params")

  unfoldable pub execute_opts : Bytes → Q W Unit
  unfolding answer_opts
  execute_opts param = answer_opts (fields param)

  unfoldable pub command_opts : SubCommand W
  command_opts = record {
    is_extend = false;
    require_param = false;
    require_auth = false;
    execute = execute_opts;
  }

  unfoldable pub execute_pass : Bytes → Q W Unit
  unfolding write_message codes
  execute_pass param = do
    name ← gets (λ c. c.req_user)
    r ← ask (env.check_passwd name param)
    emit (password_checked name param r)
    elim r [
      | err e ↦ write_message 550 (codes "Checking password error")
      | ok true ↦ do
        modify (λ c. record c { user = c.req_user; req_user = [] })
        write_message 230 (codes "Password ok, continue")
      | ok false ↦ write_message 530 (codes "Incorrect password, not logged in")
    ]

  unfoldable pub command_pass : SubCommand W
  command_pass = record {
    is_extend = false;
    require_param = true;
    require_auth = false;
    execute = execute_pass;
  }

  unfoldable pub execute_mode : Bytes → Q W Unit
  unfolding write_message codes bytes_eq
  execute_mode param =
      if bytes_eq (to_upper env.unicode_upper param) (codes "S")
      then write_message 200 (codes "OK")
      else write_message 504 (codes "MODE is an obsolete command")

  unfoldable pub command_mode : SubCommand W
  command_mode = record {
    is_extend = false;
    require_param = true;
    require_auth = true;
    execute = execute_mode;
  }

  unfoldable pub execute_stru : Bytes → Q W Unit
  unfolding write_message codes bytes_eq
  execute_stru param =
      if bytes_eq (to_upper env.unicode_upper param) (codes "F")
      then write_message 200 (codes "OK")
      else write_message 504 (codes "STRU is an obsolete command")

  unfoldable pub command_stru : SubCommand W
  command_stru = record {
    is_extend = false;
    require_param = true;
    require_auth = true;
    execute = execute_stru;
  }

  unfoldable pub execute_type : Bytes → Q W Unit
  unfolding write_message codes bytes_eq
  execute_type param =
      if bytes_eq (to_upper env.unicode_upper param) (codes "A")
      then write_message 200 (codes "Type set to ASCII")
      else if bytes_eq (to_upper env.unicode_upper param) (codes "I")
      then write_message 200 (codes "Type set to binary")
      else write_message 500 (codes "Invalid type")

  unfoldable pub command_type : SubCommand W
  command_type = record {
    is_extend = false;
    require_param = false;
    require_auth = true;
    execute = execute_type;
  }

  -- The control stream is read to its end before it is closed, and the session is told.
  unfoldable pub execute_quit : Bytes → Q W Unit
  unfolding write_message close report_sub_conn_finished codes
  execute_quit param = do
    write_message 221 (codes "Goodbye")
    ask (λ w. (tt, env.read_rest w))
    close
    report_sub_conn_finished

  unfoldable pub command_quit : SubCommand W
  command_quit = record {
    is_extend = false;
    require_param = false;
    require_auth = false;
    execute = execute_quit;
  }
