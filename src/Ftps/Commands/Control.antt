-- ===== src/Ftps/Commands/Control.antt =====
-- ftps/cmd.go: the commands that concern the control connection and the user.
use ftps_qftp_server.Prelude.{true, false, not, List, [], ◌∷◌, ◌++◌, if◌then◌else◌}
use ftps_qftp_server.Text.{Bytes, codes, bytes_eq, to_upper}
use ftps_qftp_server.Text.Scan.{fields}
use ftps_qftp_server.Driver.{ok, err}
use ftps_qftp_server.Ftps.State.{
  checked_passwd, Env, M, ◌>>=◌, ◌>>◌, gets, modify, emit, ask, Command,
}
use ftps_qftp_server.Ftps.Connection.{write_message, write_message_multiline, close}

module _ {W : Type 0} where
  unfoldable pub execute_allo : Bytes → M W Unit
  unfolding write_message codes
  execute_allo param = write_message 202 (codes "Obsolete")

  unfoldable pub command_allo : Command W
  command_allo = record {
    is_extend = false;
    require_param = false;
    require_auth = false;
    execute = execute_allo;
  }

  unfoldable pub execute_feat : Bytes → M W Unit
  unfolding write_message_multiline
  execute_feat param = do feats ← gets (λ c. c.server.feats); write_message_multiline 211 feats

  unfoldable pub command_feat : Command W
  command_feat = record {
    is_extend = false;
    require_param = false;
    require_auth = false;
    execute = execute_feat;
  }

  unfoldable pub execute_noop : Bytes → M W Unit
  unfolding write_message codes
  execute_noop param = write_message 200 (codes "OK")

  unfoldable pub command_noop : Command W
  command_noop = record {
    is_extend = false;
    require_param = false;
    require_auth = false;
    execute = execute_noop;
  }

  unfoldable pub execute_pwd : Bytes → M W Unit
  unfolding write_message codes
  execute_pwd param = do
    prefix ← gets (λ c. c.name_prefix)
    write_message 257 (codes "\"" ++ (prefix ++ codes "\" is the current directory"))

  unfoldable pub command_pwd : Command W
  command_pwd = record {
    is_extend = false;
    require_param = false;
    require_auth = true;
    execute = execute_pwd;
  }

  unfoldable pub execute_quit : Bytes → M W Unit
  unfolding write_message close codes
  execute_quit param = do write_message 221 (codes "Goodbye"); close

  unfoldable pub command_quit : Command W
  command_quit = record {
    is_extend = false;
    require_param = false;
    require_auth = false;
    execute = execute_quit;
  }

  unfoldable pub execute_syst : Bytes → M W Unit
  unfolding write_message codes
  execute_syst param = write_message 215 (codes "UNIX Type: L8")

  unfoldable pub command_syst : Command W
  command_syst = record {
    is_extend = false;
    require_param = false;
    require_auth = true;
    execute = execute_syst;
  }

  unfoldable pub execute_user : Bytes → M W Unit
  unfolding write_message codes
  execute_user param = do
    modify (λ c. record c { req_user = param })
    write_message 331 (codes "User name ok, password required")

  unfoldable pub command_user : Command W
  command_user = record {
    is_extend = false;
    require_param = true;
    require_auth = false;
    execute = execute_user;
  }

module _ {W : Type 0} (env : Env W) where
  -- The tests of OPTS on its two words.
  unfoldable pub answer_opts : List Bytes → M W Unit
  unfolding write_message codes bytes_eq
  answer_opts (name ∷ value ∷ []) =
      if not (bytes_eq (to_upper env.unicode_upper name) (codes "UTF8"))
      then write_message 550 (codes "Unknow params")
      else if bytes_eq (to_upper env.unicode_upper value) (codes "ON")
      then write_message 200 (codes "UTF8 mode enabled")
      else write_message 550 (codes "Unsupported non-utf8 mode")
  answer_opts _ = write_message 550 (codes "Unknow params")

  unfoldable pub execute_opts : Bytes → M W Unit
  unfolding answer_opts
  execute_opts param = answer_opts (fields param)

  unfoldable pub command_opts : Command W
  command_opts = record {
    is_extend = false;
    require_param = false;
    require_auth = false;
    execute = execute_opts;
  }

  unfoldable pub execute_pass : Bytes → M W Unit
  unfolding write_message codes
  execute_pass param = do
    name ← gets (λ c. c.req_user)
    r ← ask (env.check_passwd name param)
    emit (checked_passwd name param r)
    elim r [
      | err e ↦ write_message 550 (codes "Checking password error")
      | ok true ↦ do
        modify (λ c. record c { user = c.req_user; req_user = [] })
        write_message 230 (codes "Password ok, continue")
      | ok false ↦ write_message 530 (codes "Incorrect password, not logged in")
    ]

  unfoldable pub command_pass : Command W
  command_pass = record {
    is_extend = false;
    require_param = true;
    require_auth = false;
    execute = execute_pass;
  }

  unfoldable pub execute_mode : Bytes → M W Unit
  unfolding write_message codes bytes_eq
  execute_mode param =
      if bytes_eq (to_upper env.unicode_upper param) (codes "S")
      then write_message 200 (codes "OK")
      else write_message 504 (codes "MODE is an obsolete command")

  unfoldable pub command_mode : Command W
  command_mode = record {
    is_extend = false;
    require_param = true;
    require_auth = true;
    execute = execute_mode;
  }

  unfoldable pub execute_stru : Bytes → M W Unit
  unfolding write_message codes bytes_eq
  execute_stru param =
      if bytes_eq (to_upper env.unicode_upper param) (codes "F")
      then write_message 200 (codes "OK")
      else write_message 504 (codes "STRU is an obsolete command")

  unfoldable pub command_stru : Command W
  command_stru = record {
    is_extend = false;
    require_param = true;
    require_auth = true;
    execute = execute_stru;
  }

  unfoldable pub execute_type : Bytes → M W Unit
  unfolding write_message codes bytes_eq
  execute_type param =
      if bytes_eq (to_upper env.unicode_upper param) (codes "A")
      then write_message 200 (codes "Type set to ASCII")
      else if bytes_eq (to_upper env.unicode_upper param) (codes "I")
      then write_message 200 (codes "Type set to binary")
      else write_message 500 (codes "Invalid type")

  unfoldable pub command_type : Command W
  command_type = record {
    is_extend = false;
    require_param = false;
    require_auth = true;
    execute = execute_type;
  }
