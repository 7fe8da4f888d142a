-- ===== src/Ftps/Commands/Transfer.antt =====
-- ftps/cmd.go: the commands that list a directory or move the content of a file.
use ftps_qftp_server.Prelude.{
  Bool, true, false, Option, none, some, ℕ, ◌+◌, true, false, none, some, List, [], ◌∷◌, ◌++◌,
  length, drop, ◌==◌,
}
use ftps_qftp_server.Prelude.Int.{ℤ, pos}
use ftps_qftp_server.Text.{Bytes, codes, has_prefix}
use ftps_qftp_server.Text.Scan.{fields, last_index, trim_left}
use ftps_qftp_server.Number.{format_int, parse_int, Status, fine}
use ftps_qftp_server.Driver.{
  ok, err, FileInfo, Reader, stat_call, list_dir_call, get_file_call, put_file_call,
}
use ftps_qftp_server.Listing.{short, detailed}
use ftps_qftp_server.Ftps.State.{
  printf_event, called, closed_reader, Env, nil_dereference, M, ◌>>=◌, ◌>>◌, pure, raise, gets,
  modify, emit, call, with_defer, Command,
}
use ftps_qftp_server.Ftps.Connection.{
  build_path, write_message, send_outofband_data, send_outofband_data_writer,
}

-- The index behind the options at the head of a parameter, as `parseListParam` computes it.
unfoldable pub behind_options : Bytes → List Bytes → ℕ → ℕ
unfolding has_prefix last_index
behind_options param [] i = i
behind_options param (field ∷ fs) i = elim (has_prefix field (b'-' ∷ [])) [
  | false ↦ i
  | true ↦ behind_options param fs (elim (last_index param (b' ' ∷ field)) [
    | none ↦ length field
    | some k ↦ k + length field + 1
  ])
]

unfoldable pub parse_list_param : Bytes → Bytes
unfolding behind_options fields trim_left
parse_list_param param =
    trim_left (λ c. c == b' ') (drop (behind_options param (fields param) 0) param)

module _ {W : Type 0} where
  unfoldable pub execute_appe : Bytes → M W Unit
  unfolding write_message codes
  execute_appe param = do
    modify (λ c. record c { append_data = true })
    write_message 202 (codes "Obsolete")

  unfoldable pub command_appe : Command W
  command_appe = record {
    is_extend = false;
    require_param = false;
    require_auth = true;
    execute = execute_appe;
  }

  -- The answer of REST; `ParseInt` has set the position before its error is looked at.
  unfoldable pub answer_rest : ℤ × Status → M W Unit
  unfolding write_message format_int codes
  answer_rest (n, fine) = do
    modify (λ c. record c { last_file_pos = n; append_data = true })
    write_message 350 (codes "Start transfer from " ++ format_int n)
  answer_rest (n, status) = do
    modify (λ c. record c { last_file_pos = n })
    write_message 551 (codes "File not available")

  unfoldable pub execute_rest : Bytes → M W Unit
  unfolding answer_rest
  execute_rest param = answer_rest (parse_int param)

  unfoldable pub command_rest : Command W
  command_rest = record {
    is_extend = false;
    require_param = true;
    require_auth = true;
    execute = execute_rest;
  }

  -- The answer of RETR behind the copy.
  unfoldable pub end_copy : Option Bytes → M W Unit
  unfolding write_message codes
  end_copy none = pure tt
  end_copy (some e) = write_message 551 (codes "Error reading file")

module _ {W : Type 0} (env : Env W) where
  unfoldable pub send_listing : Bytes → M W Unit
  unfolding write_message send_outofband_data codes
  send_listing listing = do
    write_message 150 (codes "Opening ASCII mode data connection for file list")
    send_outofband_data env listing

  -- The listing of a directory, in the given format.
  unfoldable pub list_directory : (List FileInfo → Bytes) → Bytes → M W Unit
  unfolding send_listing write_message
  list_directory format path = do
    r ← call (called (list_dir_call path)) (env.list_dir path)
    elim r [ ok files ↦ send_listing (format files) | err e ↦ write_message 550 e ]

  -- The listing of a directory, or of one file.
  unfoldable pub answer_list : Bool → FileInfo → Bytes → M W Unit
  unfolding list_directory send_listing
  answer_list true info path = list_directory detailed path
  answer_list false info path = send_listing (detailed (info ∷ []))

  unfoldable pub execute_list : Bytes → M W Unit
  unfolding answer_list write_message codes
  execute_list param = do
    path ← gets (λ c. build_path c (parse_list_param param))
    r ← call (called (stat_call path)) (env.stat path)
    elim r [
      | err e ↦ write_message 550 e
      | ok none ↦ do
        sid ← gets (λ c. c.session_id)
        emit (printf_event sid (codes "%s: no such file or directory.\n") (path ∷ []))
      | ok (some info) ↦ answer_list info.is_dir info path
    ]

  unfoldable pub command_list : Command W
  command_list = record {
    is_extend = false;
    require_param = false;
    require_auth = true;
    execute = execute_list;
  }

  unfoldable pub answer_nlst : Bool → Bytes → Bytes → M W Unit
  unfolding list_directory write_message codes
  answer_nlst true param path = list_directory short path
  answer_nlst false param path = write_message 550 (param ++ codes " is not a directory")

  unfoldable pub execute_nlst : Bytes → M W Unit
  unfolding answer_nlst write_message codes
  execute_nlst param = do
    path ← gets (λ c. build_path c (parse_list_param param))
    r ← call (called (stat_call path)) (env.stat path)
    elim r [
      | err e ↦ write_message 550 e
      | ok none ↦ raise nil_dereference
      | ok (some info) ↦ answer_nlst info.is_dir param path
    ]

  unfoldable pub command_nlst : Command W
  command_nlst = record {
    is_extend = false;
    require_param = false;
    require_auth = true;
    execute = execute_nlst;
  }

  unfoldable pub copy_file : ℤ → Reader → M W Unit
  unfolding write_message send_outofband_data_writer end_copy format_int codes
  copy_file bytes reader = do
    write_message 150 (codes "Data transfer starting " ++ (format_int bytes ++ codes " bytes"))
    failed ← send_outofband_data_writer env reader
    end_copy failed

  -- The file is sent, and its reader is closed whatever comes of it.
  unfoldable pub send_file : ℤ → Reader → M W Unit
  unfolding copy_file
  send_file bytes reader =
      with_defer (λ s. record s { trace = closed_reader reader ∷ s.trace }) (copy_file bytes reader)

  unfoldable pub retrieve : Bytes → M W Unit
  unfolding send_file write_message codes
  retrieve path = do
    position ← gets (λ c. c.last_file_pos)
    r ← call (called (get_file_call path position)) (env.get_file path position)
    elim r [
      | ok (bytes, reader) ↦ send_file bytes reader
      | err e ↦ write_message 551 (codes "File not available")
    ]

  unfoldable pub execute_retr : Bytes → M W Unit
  unfolding retrieve
  execute_retr param = do
    path ← gets (λ c. build_path c param)
    with_defer
        (λ s. record s { conn = record s.conn { last_file_pos = pos 0; append_data = false } })
        (retrieve path)

  unfoldable pub command_retr : Command W
  command_retr = record {
    is_extend = false;
    require_param = true;
    require_auth = true;
    execute = execute_retr;
  }

  unfoldable pub store : Bytes → M W Unit
  unfolding write_message format_int codes
  store path = do
    data_conn ← gets (λ c. c.data_conn)
    append ← gets (λ c. c.append_data)
    r ← call (called (put_file_call path data_conn append)) (env.put_file path data_conn append)
    elim r [
      | ok bytes ↦ write_message 226 (codes "OK, received " ++ (format_int bytes ++ codes " bytes"))
      | err e ↦ write_message 450 (codes "error during transfer: " ++ e)
    ]

  unfoldable pub execute_stor : Bytes → M W Unit
  unfolding store write_message codes
  execute_stor param = do
    path ← gets (λ c. build_path c param)
    write_message 150 (codes "Data transfer starting")
    with_defer (λ s. record s { conn = record s.conn { append_data = false } }) (store path)

  unfoldable pub command_stor : Command W
  command_stor = record {
    is_extend = false;
    require_param = true;
    require_auth = true;
    execute = execute_stor;
  }
