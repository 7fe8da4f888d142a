-- ===== src/Ftpq/Quiet/Transfer.antt =====
-- LIST, NLST, RETR and STOR are quiet, whatever the driver and the session answer.
use ftps_qftp_server.Prelude.{
  ℕ, zero, suc, inl, inr, Bool, true, false, Option, none, some, List, [], ◌∷◌, ltb, ◌==◌,
}
use ftps_qftp_server.Prelude.Int.{ℤ, bits64}
use ftps_qftp_server.Text.{Bytes}
use ftps_qftp_server.Text.Split.{split_two}
use ftps_qftp_server.Number.{parse_int, Status}
use ftps_qftp_server.Driver.{Result, ok, err, FileInfo, Reader, Result-cases}
use ftps_qftp_server.Listing.{short, detailed}
use ftps_qftp_server.Ftps.State.{Copied, copied, copy_error, copy_panic}
use ftps_qftp_server.Ftpq.State.{StreamId, Awaited, answered, never_answered, QuicEnv, Q}
use ftps_qftp_server.Ftpq.SubConn.{
  write_message, build_path, get_receive_data_stream, find_stream, open_stream,
  get_new_send_data_stream, send_outofband_data, accept_until, end_accept, end_open, check_accepted,
  has_stream, end_copying, send_outofband_data_writer,
}
use ftps_qftp_server.Ftpq.Commands.Transfer.{
  parse_list_param, end_copy, check_words, check_stream, received_stream, first_word, is_bad_stream,
  answer_listing, send_listing, list_directory, answer_list, execute_list, answer_nlst,
  execute_nlst, copy_file, open_and_copy, send_file, retrieve, execute_retr, store, store_words,
  receive_file, execute_stor,
}
use ftps_qftp_server.Ftpq.Quiet.{
  IsQuiet, IsCalm, if-IsCalm, with_lock-IsQuiet, bind-IsQuiet, defer-IsQuiet, write_message-IsQuiet,
}

module _ {W : Type 0} where
  end_copy-IsQuiet : (failed : Option Bytes) → IsQuiet (end_copy {W = W} failed)
  unfolding end_copy
  end_copy-IsQuiet none = record { at = λ k s h. h }
  end_copy-IsQuiet (some e) = write_message-IsQuiet _ _

  check_words-IsQuiet : (words : List Bytes) → IsQuiet (check_words {W = W} words)
  unfolding check_words
  check_words-IsQuiet [] = write_message-IsQuiet _ _
  check_words-IsQuiet (a ∷ []) = write_message-IsQuiet _ _
  check_words-IsQuiet (a ∷ b ∷ []) = record { at = λ k s h. h }
  check_words-IsQuiet (a ∷ b ∷ c ∷ r) = write_message-IsQuiet _ _

  check_stream-IsQuiet : (bad : Bool) → IsQuiet (check_stream {W = W} bad)
  unfolding check_stream
  check_stream-IsQuiet true = write_message-IsQuiet _ _
  check_stream-IsQuiet false = record { at = λ k s h. h }

  received-IsQuiet : (r : Result StreamId) → IsQuiet (received_stream {W = W} r)
  unfolding received_stream write_message
  received-IsQuiet (ok id) = record { at = λ k s h. h }
  received-IsQuiet (err e) = record { at = λ k s h. h }

  check_accepted-IsCalm :
      {again : Q W (Result StreamId)} (wanted id : StreamId)
      → IsCalm again
      → IsCalm (check_accepted again wanted id)
  unfolding check_accepted
  check_accepted-IsCalm wanted id q =
      if-IsCalm (ltb wanted id) (record { at = λ k s h. h })
        (if-IsCalm (id == wanted) (record { at = λ k s h. h }) q)

  end_accept-IsCalm :
      {again : Q W (Result StreamId)} (wanted : StreamId) (r : Awaited StreamId)
      → IsCalm again
      → IsCalm (end_accept again wanted r)
  unfolding end_accept
  end_accept-IsCalm wanted never_answered q = record { at = λ k s h. h }
  end_accept-IsCalm wanted (answered (err e)) q = record { at = λ k s h. h }
  end_accept-IsCalm wanted (answered (ok id)) q = record {
    at = λ k s h. (check_accepted-IsCalm wanted id q).at k _ h;
  }

  end_open-IsCalm : (r : Awaited StreamId) → IsCalm (end_open {W = W} r)
  unfolding end_open
  end_open-IsCalm (answered (ok id)) = record { at = λ k s h. h }
  end_open-IsCalm (answered (err e)) = record { at = λ k s h. h }
  end_open-IsCalm never_answered = record { at = λ k s h. h }

  end_copying-IsQuiet : (stream : StreamId) (r : Copied) → IsQuiet (end_copying {W = W} stream r)
  unfolding end_copying write_message
  end_copying-IsQuiet stream (copied n) = record { at = λ k s h. h }
  end_copying-IsQuiet stream (copy_error e) = record { at = λ k s h. h }
  end_copying-IsQuiet stream copy_panic = record { at = λ k s h. h }

module _ {W : Type 0} (env : QuicEnv W) where
  accept_until-IsCalm : (fuel : ℕ) (wanted : StreamId) → IsCalm (accept_until env fuel wanted)
  unfolding accept_until
  accept_until-IsCalm zero wanted = record { at = λ k s h. h }
  accept_until-IsCalm (suc fuel) wanted = record {
    at = λ k s h. (end_accept-IsCalm wanted _ (accept_until-IsCalm fuel wanted)).at k _ h;
  }

  receive-IsQuiet : (wanted : StreamId) → IsQuiet (get_receive_data_stream env wanted)
  unfolding get_receive_data_stream find_stream
  receive-IsQuiet wanted = with_lock-IsQuiet (record {
    at = λ k s h.
        (if-IsCalm (has_stream wanted s.shared.data_receive_streams) (record { at = λ j t i. i })
            (accept_until-IsCalm (suc wanted) wanted)).at
          k s h;
  })

  send-IsQuiet : IsQuiet (get_new_send_data_stream env)
  unfolding get_new_send_data_stream open_stream
  send-IsQuiet =
      with_lock-IsQuiet
        (record { at = λ k s h. (end_open-IsCalm (env.open_uni_stream s.world).0).at k _ h })

  send_outofband-IsQuiet :
      (bytes : Bytes) (stream : StreamId) → IsQuiet (send_outofband_data env bytes stream)
  unfolding send_outofband_data write_message
  send_outofband-IsQuiet bytes stream = record { at = λ k s h. h }

  answer_listing-IsQuiet :
      (listing : Bytes) (r : Result StreamId) → IsQuiet (answer_listing env listing r)
  unfolding answer_listing
  answer_listing-IsQuiet listing (err e) = write_message-IsQuiet _ _
  answer_listing-IsQuiet listing (ok stream) =
      bind-IsQuiet (write_message-IsQuiet _ _) (λ _. send_outofband-IsQuiet listing stream)

  send_listing-IsQuiet : (listing : Bytes) → IsQuiet (send_listing env listing)
  unfolding send_listing
  send_listing-IsQuiet listing = bind-IsQuiet send-IsQuiet (answer_listing-IsQuiet listing)

  list_directory-IsQuiet :
      (format : List FileInfo → Bytes) (path : Bytes) → IsQuiet (list_directory env format path)
  unfolding list_directory write_message
  list_directory-IsQuiet format path = record {
    at = λ k s h. elim (Result-cases (env.list_dir path s.world).0) [
      | inl (files, e) ↦ rw e ((send_listing-IsQuiet (format files)).at k _ h)
      | inr (t, e) ↦ rw e h
    ];
  }

  answer_list-IsQuiet :
      (is_dir : Bool) (info : FileInfo) (path : Bytes) → IsQuiet (answer_list env is_dir info path)
  unfolding answer_list
  answer_list-IsQuiet true info path = list_directory-IsQuiet detailed path
  answer_list-IsQuiet false info path = send_listing-IsQuiet (detailed (info ∷ []))

  answer_nlst-IsQuiet :
      (is_dir : Bool) (param path : Bytes) → IsQuiet (answer_nlst env is_dir param path)
  unfolding answer_nlst
  answer_nlst-IsQuiet true param path = list_directory-IsQuiet short path
  answer_nlst-IsQuiet false param path = write_message-IsQuiet _ _

  pub list-IsQuiet : (param : Bytes) → IsQuiet (execute_list env param)
  unfolding execute_list write_message
  list-IsQuiet param = record {
    at = λ k s h.
        let path = build_path s.sub (parse_list_param param) in
        elim (Result-cases (env.stat path s.world).0) [
          | inl (none, e) ↦ rw e h
          | inl (some info, e) ↦ rw e ((answer_list-IsQuiet info.is_dir info path).at k _ h)
          | inr (t, e) ↦ rw e h
        ];
  }

  pub nlst-IsQuiet : (param : Bytes) → IsQuiet (execute_nlst env param)
  unfolding execute_nlst write_message
  nlst-IsQuiet param = record {
    at = λ k s h.
        let path = build_path s.sub (parse_list_param param) in
        elim (Result-cases (env.stat path s.world).0) [
          | inl (none, e) ↦ rw e h
          | inl (some info, e) ↦ rw e ((answer_nlst-IsQuiet info.is_dir param path).at k _ h)
          | inr (t, e) ↦ rw e h
        ];
  }

  writer-IsQuiet :
      (reader : Reader) (stream : StreamId) → IsQuiet (send_outofband_data_writer env reader stream)
  unfolding send_outofband_data_writer
  writer-IsQuiet reader stream = record {
    at = λ k s h. (end_copying-IsQuiet stream (env.copy_stream stream reader s.world).0).at k _ h;
  }

  copy_file-IsQuiet :
      (bytes : ℤ) (reader : Reader) (r : Result StreamId) → IsQuiet (copy_file env bytes reader r)
  unfolding copy_file
  copy_file-IsQuiet bytes reader (err e) = write_message-IsQuiet _ _
  copy_file-IsQuiet bytes reader (ok stream) =
      bind-IsQuiet (write_message-IsQuiet _ _)
        (λ _. bind-IsQuiet (writer-IsQuiet reader stream) end_copy-IsQuiet)

  open_and_copy-IsQuiet : (bytes : ℤ) (reader : Reader) → IsQuiet (open_and_copy env bytes reader)
  unfolding open_and_copy
  open_and_copy-IsQuiet bytes reader = bind-IsQuiet send-IsQuiet (copy_file-IsQuiet bytes reader)

  send_file-IsQuiet : (bytes : ℤ) (reader : Reader) → IsQuiet (send_file env bytes reader)
  unfolding send_file
  send_file-IsQuiet bytes reader = record {
    at = λ k s h. defer-IsQuiet _ (λ j t i. i) k _ ((open_and_copy-IsQuiet bytes reader).at k s h);
  }

  retrieve-IsQuiet : (path : Bytes) → IsQuiet (retrieve env path)
  unfolding retrieve write_message
  retrieve-IsQuiet path = record {
    at = λ k s h. elim (Result-cases (env.get_file path s.last_file_pos s.world).0) [
      | inl ((bytes, reader), e) ↦ rw e ((send_file-IsQuiet bytes reader).at k _ h)
      | inr (t, e) ↦ rw e h
    ];
  }

  pub retr-IsQuiet : (param : Bytes) → IsQuiet (execute_retr env param)
  unfolding execute_retr
  retr-IsQuiet param = record {
    at = λ k s h.
        defer-IsQuiet _ (λ j t i. i) k _ ((retrieve-IsQuiet (build_path s.sub param)).at k s h);
  }

  store-IsQuiet : (path : Bytes) (stream : Option StreamId) → IsQuiet (store env path stream)
  unfolding store write_message
  store-IsQuiet path stream = record {
    at = λ k s h. elim (Result-cases (env.put_file path stream s.append_data s.world).0) [
      | inl (n, e) ↦ rw e h
      | inr (t, e) ↦ rw e h
    ];
  }

  store_words-IsQuiet :
      (words : List Bytes) (stream : Option StreamId) → IsQuiet (store_words env words stream)
  unfolding store_words
  store_words-IsQuiet [] stream = record { at = λ k s h. h }
  store_words-IsQuiet (a ∷ []) stream = record { at = λ k s h. h }
  store_words-IsQuiet (a ∷ path ∷ words) stream = record {
    at = λ k s h.
        defer-IsQuiet _ (λ j t i. i) k _ ((store-IsQuiet (build_path s.sub path) stream).at k s h);
  }

  receive_file-IsQuiet :
      (words : List Bytes) (number : ℤ × Status) → IsQuiet (receive_file env words number)
  unfolding receive_file
  receive_file-IsQuiet words number = bind-IsQuiet (check_words-IsQuiet words) (λ _.
      bind-IsQuiet (check_stream-IsQuiet (is_bad_stream number)) (λ _.
        bind-IsQuiet (write_message-IsQuiet _ _) (λ _.
          bind-IsQuiet (receive-IsQuiet (bits64 number.0))
            (λ r. bind-IsQuiet (received-IsQuiet r) (store_words-IsQuiet words)))))

  pub stor-IsQuiet : (param : Bytes) → IsQuiet (execute_stor env param)
  unfolding execute_stor
  stor-IsQuiet param =
      receive_file-IsQuiet (split_two param b' ') (parse_int (first_word (split_two param b' ')))
