-- ===== src/Ftpq/Commands/Transfer.antt =====
-- ftpq/cmd.go: the commands that list a directory or move the content of a file.
use ftps_qftp_server.Prelude.{
  ℕ, ◌+◌, ◌%◌, Bool, true, false, not, Option, none, some, List, [], ◌∷◌, ◌++◌, length, drop, ◌==◌,
}
use ftps_qftp_server.Prelude.Int.{ℤ, pos, negsuc, bits64}
use ftps_qftp_server.Text.{Bytes, codes, has_prefix}
use ftps_qftp_server.Text.Scan.{fields, last_index, trim_left}
use ftps_qftp_server.Text.Split.{split_two}
use ftps_qftp_server.Number.{format_nat, format_int, parse_int, Status, fine}
use ftps_qftp_server.Driver.{
  Result, ok, err, FileInfo, Reader, stat_call, list_dir_call, get_file_call, put_file_call,
}
use ftps_qftp_server.Listing.{short, detailed}
use ftps_qftp_server.Ftps.State.{index_out_of_range, nil_dereference}
use ftps_qftp_server.Ftpq.State.{
  StreamId, tag, logged_format, driver_called, reader_closed, QuicEnv, Q, ◌>>=◌, ◌>>◌, pure, raise,
  gets, modify, emit, call, with_defer, SubCommand,
}
use ftps_qftp_server.Ftpq.SubConn.{
  build_path, write_message, get_receive_data_stream, get_new_send_data_stream, send_outofband_data,
  send_outofband_data_writer,
}

-- The index behind the options at the head of a parameter, as `parseListParam` computes it.
unfoldable pub behind_options : Bytes → List Bytes → ℕ → ℕ
unfolding has_prefix last_index
behind_options param [] i = i
behind_options param (field ∷ fs) i = elim (has_prefix field (b'-' ∷ [])) [
  | false ↦ i
  | true ↦ behind_options param fs (elim (last_index param (b' ' ∷ field)) [
    | none ↦ length field
    | some k ↦ k + length field + 1
  ])
]

unfoldable pub parse_list_param : Bytes → Bytes
unfolding behind_options fields trim_left
parse_list_param param =
    trim_left (λ c. c == b' ') (drop (behind_options param (fields param) 0) param)

-- `streamIDUint64 < 0 || streamIDUint64%4 != 2`: no number of a stream that a client opens to send only.
unfoldable pub is_other_stream : ℤ → Bool
is_other_stream (negsuc n) = true
is_other_stream (pos n) = not (n % 4 == 2)

-- `err != nil` of `ParseInt`, or a number that does not fit.
unfoldable pub is_bad_stream : ℤ × Status → Bool
unfolding is_other_stream
is_bad_stream (n, fine) = is_other_stream n
is_bad_stream (n, status) = true

module _ {W : Type 0} where
  unfoldable pub execute_appe : Bytes → Q W Unit
  unfolding write_message codes
  execute_appe param = do
    modify (λ c. record c { append_data = true })
    write_message 202 (codes "Obsolete")

  unfoldable pub command_appe : SubCommand W
  command_appe = record {
    is_extend = false;
    require_param = false;
    require_auth = true;
    execute = execute_appe;
  }

  -- The answer of REST; `ParseInt` has set the position before its error is looked at.
  unfoldable pub answer_rest : ℤ × Status → Q W Unit
  unfolding write_message format_int codes
  answer_rest (n, fine) = do
    modify (λ c. record c { last_file_pos = n; append_data = true })
    write_message 350 (codes "Start transfer from " ++ format_int n)
  answer_rest (n, status) = do
    modify (λ c. record c { last_file_pos = n })
    write_message 551 (codes "File not available")

  unfoldable pub execute_rest : Bytes → Q W Unit
  unfolding answer_rest
  execute_rest param = answer_rest (parse_int param)

  unfoldable pub command_rest : SubCommand W
  command_rest = record {
    is_extend = false;
    require_param = true;
    require_auth = true;
    execute = execute_rest;
  }

  -- The answer of RETR behind the copy.
  unfoldable pub end_copy : Option Bytes → Q W Unit
  unfolding write_message codes
  end_copy none = pure tt
  end_copy (some e) = write_message 551 (codes "Error reading file")

  -- The answer to each of the three errors of STOR, behind which the code goes on.
  unfoldable pub check_words : List Bytes → Q W Unit
  unfolding write_message codes
  check_words (a ∷ b ∷ []) = pure tt
  check_words _ = write_message 501 (codes "Stream ID and path seperated by a blank needed.")

  unfoldable pub check_stream : Bool → Q W Unit
  unfolding write_message codes
  check_stream false = pure tt
  check_stream true =
      write_message 501
        (codes "Stream ID has not a valid value for a unidirectional stream from the client.")

  -- The stream that is handed on: nil behind an error.
  unfoldable pub received_stream : Result StreamId → Q W (Option StreamId)
  unfolding write_message codes
  received_stream (ok id) = pure (some id)
  received_stream (err e) = do write_message 425 (codes "Can't open data stream."); pure none

-- The first word of a parameter, which has one.
unfoldable pub first_word : List Bytes → Bytes
first_word [] = []
first_word (word ∷ words) = word

module _ {W : Type 0} (env : QuicEnv W) where
  -- The end of LIST and NLST, on the stream that was opened.
  unfoldable pub answer_listing : Bytes → Result StreamId → Q W Unit
  unfolding write_message send_outofband_data format_nat codes
  answer_listing listing (err e) = write_message 425 (codes "Can't open data stream.")
  answer_listing listing (ok stream) = do
    write_message 150
        (format_nat stream ++ codes " Opening ASCII mode data connection for file list")
    send_outofband_data env listing stream

  unfoldable pub send_listing : Bytes → Q W Unit
  unfolding answer_listing get_new_send_data_stream
  send_listing listing = do stream ← get_new_send_data_stream env; answer_listing listing stream

  -- The listing of a directory, in the given format.
  unfoldable pub list_directory : (List FileInfo → Bytes) → Bytes → Q W Unit
  unfolding send_listing write_message
  list_directory format path = do
    r ← call (driver_called (list_dir_call path)) (env.list_dir path)
    elim r [ ok files ↦ send_listing (format files) | err e ↦ write_message 550 e ]

  -- The listing of a directory, or of one file.
  unfoldable pub answer_list : Bool → FileInfo → Bytes → Q W Unit
  unfolding list_directory send_listing
  answer_list true info path = list_directory detailed path
  answer_list false info path = send_listing (detailed (info ∷ []))

  unfoldable pub execute_list : Bytes → Q W Unit
  unfolding answer_list write_message codes
  execute_list param = do
    path ← gets (λ c. build_path c (parse_list_param param))
    r ← call (driver_called (stat_call path)) (env.stat path)
    elim r [
      | err e ↦ write_message 550 e
      | ok none ↦ do
        name ← gets tag
        emit (logged_format name (codes "%s: no such file or directory.\n") (path ∷ []))
      | ok (some info) ↦ answer_list info.is_dir info path
    ]

  unfoldable pub command_list : SubCommand W
  command_list = record {
    is_extend = false;
    require_param = false;
    require_auth = true;
    execute = execute_list;
  }

  unfoldable pub answer_nlst : Bool → Bytes → Bytes → Q W Unit
  unfolding list_directory write_message codes
  answer_nlst true param path = list_directory short path
  answer_nlst false param path = write_message 550 (param ++ codes " is not a directory")

  unfoldable pub execute_nlst : Bytes → Q W Unit
  unfolding answer_nlst write_message codes
  execute_nlst param = do
    path ← gets (λ c. build_path c (parse_list_param param))
    r ← call (driver_called (stat_call path)) (env.stat path)
    elim r [
      | err e ↦ write_message 550 e
      | ok none ↦ raise nil_dereference
      | ok (some info) ↦ answer_nlst info.is_dir param path
    ]

  unfoldable pub command_nlst : SubCommand W
  command_nlst = record {
    is_extend = false;
    require_param = false;
    require_auth = true;
    execute = execute_nlst;
  }

  -- RETR on the stream that was opened.
  unfoldable pub copy_file : ℤ → Reader → Result StreamId → Q W Unit
  unfolding write_message send_outofband_data_writer end_copy format_nat format_int codes
  copy_file bytes reader (err e) = write_message 425 (codes "Can't open data stream.")
  copy_file bytes reader (ok stream) = do
    write_message 150 (
        format_nat stream
        ++ (codes " Data transfer starting " ++ (format_int bytes ++ codes " bytes")))
    failed ← send_outofband_data_writer env reader stream
    end_copy failed

  unfoldable pub open_and_copy : ℤ → Reader → Q W Unit
  unfolding copy_file get_new_send_data_stream
  open_and_copy bytes reader = do
    stream ← get_new_send_data_stream env
    copy_file bytes reader stream

  -- The file is sent, and its reader is closed whatever comes of it.
  unfoldable pub send_file : ℤ → Reader → Q W Unit
  unfolding open_and_copy
  send_file bytes reader =
      with_defer (λ s. record s { trace = reader_closed reader ∷ s.trace })
        (open_and_copy bytes reader)

  unfoldable pub retrieve : Bytes → Q W Unit
  unfolding send_file write_message codes
  retrieve path = do
    position ← gets (λ c. c.last_file_pos)
    r ← call (driver_called (get_file_call path position)) (env.get_file path position)
    elim r [
      | ok (bytes, reader) ↦ send_file bytes reader
      | err e ↦ write_message 551 (codes "File not available")
    ]

  unfoldable pub execute_retr : Bytes → Q W Unit
  unfolding retrieve
  execute_retr param = do
    path ← gets (λ c. build_path c param)
    with_defer (λ s. record s { sub = record s.sub { last_file_pos = pos 0; append_data = false } })
        (retrieve path)

  unfoldable pub command_retr : SubCommand W
  command_retr = record {
    is_extend = false;
    require_param = true;
    require_auth = true;
    execute = execute_retr;
  }

  unfoldable pub store : Bytes → Option StreamId → Q W Unit
  unfolding write_message format_int codes
  store path stream = do
    append ← gets (λ c. c.append_data)
    r ← call (driver_called (put_file_call path stream append)) (env.put_file path stream append)
    elim r [
      | ok bytes ↦ write_message 226 (codes "OK, received " ++ (format_int bytes ++ codes " bytes"))
      | err e ↦ write_message 450 (codes "error during transfer: " ++ e)
    ]

  -- STOR from `params[1]` on.
  unfoldable pub store_words : List Bytes → Option StreamId → Q W Unit
  unfolding store
  store_words (word ∷ path ∷ words) stream = do
    target ← gets (λ c. build_path c path)
    with_defer (λ s. record s { sub = record s.sub { append_data = false } }) (store target stream)
  store_words _ stream = raise index_out_of_range

  unfoldable pub receive_file : List Bytes → ℤ × Status → Q W Unit
  unfolding check_words check_stream received_stream store_words write_message
      get_receive_data_stream is_bad_stream codes
  receive_file words number = do
    check_words words
    check_stream (is_bad_stream number)
    write_message 150 (codes "Data transfer starting")
    r ← get_receive_data_stream env (bits64 number.0)
    stream ← received_stream r
    store_words words stream

  unfoldable pub execute_stor : Bytes → Q W Unit
  unfolding receive_file split_two first_word parse_int
  execute_stor param =
      let words = split_two param b' ' in receive_file words (parse_int (first_word words))

  unfoldable pub command_stor : SubCommand W
  command_stor = record {
    is_extend = false;
    require_param = true;
    require_auth = true;
    execute = execute_stor;
  }
