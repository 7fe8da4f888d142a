-- ===== src/Ftps/Commands/Files.antt =====
-- ftps/cmd.go: the commands on directories and on the names of files.
use ftps_qftp_server.Prelude.{true, false, none, some, [], ◌++◌}
use ftps_qftp_server.Text.{Bytes, codes}
use ftps_qftp_server.Number.{format_int}
use ftps_qftp_server.Driver.{
  ok, err, stat_call, change_dir_call, delete_dir_call, delete_file_call, make_dir_call,
  rename_call,
}
use ftps_qftp_server.Ftps.State.{
  log_event, called, Env, nil_dereference, M, ◌>>=◌, ◌>>◌, raise, gets, modify, emit, call,
  with_defer, Command,
}
use ftps_qftp_server.Ftps.Connection.{build_path, write_message}

module _ {W : Type 0} where
  unfoldable pub execute_rnfr : Bytes → M W Unit
  unfolding write_message codes
  execute_rnfr param = do
    modify (λ c. record c { rename_from = build_path c param })
    write_message 350 (codes "Requested file action pending further information.")

  unfoldable pub command_rnfr : Command W
  command_rnfr = record {
    is_extend = false;
    require_param = true;
    require_auth = true;
    execute = execute_rnfr;
  }

module _ {W : Type 0} (env : Env W) where
  unfoldable pub execute_cwd : Bytes → M W Unit
  unfolding write_message codes
  execute_cwd param = do
    path ← gets (λ c. build_path c param)
    r ← call (called (change_dir_call path)) (env.change_dir path)
    elim r [
      | ok _ ↦ do
        modify (λ c. record c { name_prefix = path })
        write_message 250 (codes "Directory changed to " ++ path)
      | err e ↦
          write_message 550 (codes "Directory change to " ++ (path ++ (codes " failed: " ++ e)))
    ]

  unfoldable pub command_cwd : Command W
  command_cwd = record {
    is_extend = false;
    require_param = true;
    require_auth = true;
    execute = execute_cwd;
  }

  unfoldable pub execute_cdup : Bytes → M W Unit
  unfolding execute_cwd codes
  execute_cdup param = execute_cwd (codes "..")

  unfoldable pub command_cdup : Command W
  command_cdup = record {
    is_extend = false;
    require_param = false;
    require_auth = true;
    execute = execute_cdup;
  }

  unfoldable pub execute_dele : Bytes → M W Unit
  unfolding write_message codes
  execute_dele param = do
    path ← gets (λ c. build_path c param)
    r ← call (called (delete_file_call path)) (env.delete_file path)
    elim r [
      | ok _ ↦ write_message 250 (codes "File deleted")
      | err e ↦ write_message 550 (codes "File delete failed: " ++ e)
    ]

  unfoldable pub command_dele : Command W
  command_dele = record {
    is_extend = false;
    require_param = true;
    require_auth = true;
    execute = execute_dele;
  }

  unfoldable pub execute_mkd : Bytes → M W Unit
  unfolding write_message codes
  execute_mkd param = do
    path ← gets (λ c. build_path c param)
    r ← call (called (make_dir_call path)) (env.make_dir path)
    elim r [
      | ok _ ↦ write_message 257 (codes "Directory created")
      | err e ↦ write_message 550 (codes "Action not taken: " ++ e)
    ]

  unfoldable pub command_mkd : Command W
  command_mkd = record {
    is_extend = false;
    require_param = true;
    require_auth = true;
    execute = execute_mkd;
  }

  unfoldable pub execute_rmd : Bytes → M W Unit
  unfolding write_message codes
  execute_rmd param = do
    path ← gets (λ c. build_path c param)
    r ← call (called (delete_dir_call path)) (env.delete_dir path)
    elim r [
      | ok _ ↦ write_message 250 (codes "Directory deleted")
      | err e ↦ write_message 550 (codes "Directory delete failed: " ++ e)
    ]

  unfoldable pub command_rmd : Command W
  command_rmd = record {
    is_extend = false;
    require_param = true;
    require_auth = true;
    execute = execute_rmd;
  }

  unfoldable pub rename_to : Bytes → M W Unit
  unfolding write_message codes
  rename_to to_path = do
    from ← gets (λ c. c.rename_from)
    r ← call (called (rename_call from to_path)) (env.rename from to_path)
    elim r [
      | ok _ ↦ write_message 250 (codes "File renamed")
      | err e ↦ write_message 550 (codes "Action not taken: " ++ e)
    ]

  unfoldable pub execute_rnto : Bytes → M W Unit
  unfolding rename_to
  execute_rnto param = do
    to_path ← gets (λ c. build_path c param)
    with_defer (λ s. record s { conn = record s.conn { rename_from = [] } }) (rename_to to_path)

  unfoldable pub command_rnto : Command W
  command_rnto = record {
    is_extend = false;
    require_param = true;
    require_auth = true;
    execute = execute_rnto;
  }

  -- A nil `FileInfo` without an error is read all the same.
  unfoldable pub execute_mdtm : Bytes → M W Unit
  unfolding write_message codes
  execute_mdtm param = do
    path ← gets (λ c. build_path c param)
    r ← call (called (stat_call path)) (env.stat path)
    elim r [
      | ok (some info) ↦ write_message 213 info.mod_time_stamp
      | ok none ↦ raise nil_dereference
      | err e ↦ write_message 450 (codes "File not available")
    ]

  unfoldable pub command_mdtm : Command W
  command_mdtm = record {
    is_extend = false;
    require_param = true;
    require_auth = true;
    execute = execute_mdtm;
  }

  unfoldable pub execute_size : Bytes → M W Unit
  unfolding write_message codes format_int
  execute_size param = do
    path ← gets (λ c. build_path c param)
    r ← call (called (stat_call path)) (env.stat path)
    elim r [
      | ok (some info) ↦ write_message 213 (format_int info.size)
      | ok none ↦ raise nil_dereference
      | err e ↦ do
        emit (log_event (codes "Size: error(" ++ (e ++ codes ")")))
        write_message 450 (codes "path" ++ (path ++ codes "not found"))
    ]

  unfoldable pub command_size : Command W
  command_size = record {
    is_extend = false;
    require_param = true;
    require_auth = true;
    execute = execute_size;
  }
