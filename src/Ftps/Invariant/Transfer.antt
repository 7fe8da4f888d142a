-- ===== src/Ftps/Invariant/Transfer.antt =====
-- The commands of Commands/Transfer keep every invariant of a connection that confines its paths.
use ftps_qftp_server.Prelude.{
  inl, inr, Bool, true, false, Option, none, some, List, [], ◌∷◌, length,
}
use ftps_qftp_server.Prelude.Int.{ℤ, pos}
use ftps_qftp_server.Text.{Bytes, codes}
use ftps_qftp_server.Number.{format_nat, parse_int, Status, fine, bad_syntax, out_of_range}
use ftps_qftp_server.Driver.{
  FileInfo, Reader, Result-cases, stat_call, list_dir_call, get_file_call, put_file_call,
}
use ftps_qftp_server.Listing.{short, detailed}
use ftps_qftp_server.FilePath.Sandbox.{IsSandboxed}
use ftps_qftp_server.Ftps.State.{
  Socket, Env, Session, data_copied, Copied, copied, copy_error, copy_panic, Outcome, done, panic,
  ◌>>◌, pure,
}
use ftps_qftp_server.Ftps.Connection.{
  build_path, write_out, send_outofband_data, send_outofband_data_writer, close_data_conn,
  sent_message, end_copying,
}
use ftps_qftp_server.Ftps.Commands.Transfer.{
  parse_list_param, execute_appe, answer_rest, execute_rest, send_listing, list_directory,
  execute_list, execute_nlst, answer_list, answer_nlst, end_copy, copy_file, send_file, retrieve,
  execute_retr, store, execute_stor,
}
use ftps_qftp_server.Ftps.Invariant.{PathInvariant, Post}
use ftps_qftp_server.Ftps.Invariant.Rules.{
  Keeps, write_message-Keeps, close_data_conn-Keeps, bind-Keeps,
}
use ftps_qftp_server.Ftps.Invariant.Files.{built, behind_call}

module _ {W : Type 0} {I : Session W → Type 0} (inv : PathInvariant I) where
  pub appe-Keeps : (param : Bytes) → Keeps I (execute_appe param)
  unfolding execute_appe
  appe-Keeps param = record {
    at = λ s h.
        (write_message-Keeps inv.base _ _).at _
          (inv.transferred s s.data_conn s.last_file_pos true h);
  }

  answer_rest-Keeps : (n : ℤ) (status : Status) → Keeps I (answer_rest (n, status))
  unfolding answer_rest
  answer_rest-Keeps n fine = record {
    at = λ s h. (write_message-Keeps inv.base _ _).at _ (inv.transferred s s.data_conn n true h);
  }
  answer_rest-Keeps n bad_syntax = record {
    at = λ s h.
        (write_message-Keeps inv.base _ _).at _ (inv.transferred s s.data_conn n s.append_data h);
  }
  answer_rest-Keeps n out_of_range = record {
    at = λ s h.
        (write_message-Keeps inv.base _ _).at _ (inv.transferred s s.data_conn n s.append_data h);
  }

  pub rest-Keeps : (param : Bytes) → Keeps I (execute_rest param)
  unfolding execute_rest
  rest-Keeps param = answer_rest-Keeps (parse_int param).0 (parse_int param).1

  end_copy-Keeps : (failed : Option Bytes) → Keeps I (end_copy failed)
  unfolding end_copy
  end_copy-Keeps none = record { at = λ s h. h }
  end_copy-Keeps (some e) = write_message-Keeps inv.base _ _

  closed_with :
      (data_conn : Option Socket) (failed : Option Bytes)
      → Keeps I (close_data_conn data_conn >> pure failed)
  closed_with data_conn failed =
      bind-Keeps {f = λ _. pure failed} (close_data_conn-Keeps inv.base data_conn)
        (λ _. record { at = λ s h. h })

  end_copying-Keeps : (data_conn : Option Socket) (r : Copied) → Keeps I (end_copying data_conn r)
  unfolding end_copying
  end_copying-Keeps data_conn (copied n) =
      bind-Keeps (write_message-Keeps inv.base _ _) (λ _. closed_with data_conn none)
  end_copying-Keeps data_conn (copy_error e) = closed_with data_conn (some e)
  end_copying-Keeps data_conn copy_panic = record { at = λ s h. h }

-- What is deferred runs in the state in which the function ends, by a value or by a panic.
defer-Post :
    {W : Type 0} {I : Session W → Type 0} (deferred : Session W → Session W) (o : Outcome W Unit)
    → ((s : Session W) → I s → I (deferred s))
    → Post I o
    → Post I
        (elim o [ done a s' ↦ done a (deferred s') | panic fault s' ↦ panic fault (deferred s') ])
defer-Post deferred (done a s') hd h = hd s' h
defer-Post deferred (panic fault s') hd h = hd s' h

module _ {W : Type 0} {I : Session W → Type 0} (inv : PathInvariant I) (env : Env W) where
  write_out-Keeps :
      (bytes : Bytes) (data_conn : Option Socket) → Keeps I (write_out env bytes data_conn)
  unfolding write_out
  write_out-Keeps bytes none = record { at = λ s h. h }
  write_out-Keeps bytes (some socket) = record {
    at = λ s h.
        (close_data_conn-Keeps inv.base (some socket)).at _ (inv.moved _ _ (inv.quiet s _ tt h));
  }

  send_outofband_data-Keeps : (bytes : Bytes) → Keeps I (send_outofband_data env bytes)
  unfolding send_outofband_data
  send_outofband_data-Keeps bytes = record {
    at = λ s h.
        (bind-Keeps (write_out-Keeps bytes s.data_conn)
            (λ _. write_message-Keeps inv.base 226 (sent_message (format_nat (length bytes))))).at
          s h;
  }

  send_listing-Keeps : (listing : Bytes) → Keeps I (send_listing env listing)
  unfolding send_listing
  send_listing-Keeps listing =
      bind-Keeps (write_message-Keeps inv.base _ _) (λ _. send_outofband_data-Keeps listing)

  list_directory-Post :
      (format : List FileInfo → Bytes) (path : Bytes) (s : Session W)
      → IsSandboxed path
      → I s
      → Post I (list_directory env format path s)
  unfolding list_directory
  list_directory-Post format path s k h =
      let r = env.list_dir path s.world in
      let h' = behind_call inv s (list_dir_call path) r.1 k h in
      elim (Result-cases r.0) [
        | inl (files, e) ↦ rw e ((send_listing-Keeps (format files)).at _ h')
        | inr (t, e) ↦ rw e ((write_message-Keeps inv.base _ _).at _ h')
      ]

  answer_list-Post :
      (is_dir : Bool) (info : FileInfo) (path : Bytes) (s : Session W)
      → IsSandboxed path
      → I s
      → Post I (answer_list env is_dir info path s)
  unfolding answer_list
  answer_list-Post true info path s k h = list_directory-Post detailed path s k h
  answer_list-Post false info path s k h = (send_listing-Keeps (detailed (info ∷ []))).at s h

  answer_nlst-Post :
      (is_dir : Bool) (param path : Bytes) (s : Session W)
      → IsSandboxed path
      → I s
      → Post I (answer_nlst env is_dir param path s)
  unfolding answer_nlst
  answer_nlst-Post true param path s k h = list_directory-Post short path s k h
  answer_nlst-Post false param path s k h = (write_message-Keeps inv.base _ _).at s h

  pub list-Keeps : (param : Bytes) → Keeps I (execute_list env param)
  unfolding execute_list
  list-Keeps param = record { at = answered }
    where
      answered : (s : Session W) → I s → Post I (execute_list env param s)
      answered s h =
          let path = build_path s.conn (parse_list_param param) in
          let k = built inv (parse_list_param param) s h in
          let r = env.stat path s.world in
          let h' = behind_call inv s (stat_call path) r.1 k h in
          elim (Result-cases r.0) [
            | inl (none, e) ↦ rw e (inv.quiet _ _ tt h')
            | inl (some info, e) ↦ rw e (answer_list-Post info.is_dir info path _ k h')
            | inr (t, e) ↦ rw e ((write_message-Keeps inv.base _ _).at _ h')
          ]

  pub nlst-Keeps : (param : Bytes) → Keeps I (execute_nlst env param)
  unfolding execute_nlst
  nlst-Keeps param = record { at = answered }
    where
      answered : (s : Session W) → I s → Post I (execute_nlst env param s)
      answered s h =
          let path = build_path s.conn (parse_list_param param) in
          let k = built inv (parse_list_param param) s h in
          let r = env.stat path s.world in
          let h' = behind_call inv s (stat_call path) r.1 k h in
          elim (Result-cases r.0) [
            | inl (none, e) ↦ rw e h'
            | inl (some info, e) ↦ rw e (answer_nlst-Post info.is_dir param path _ k h')
            | inr (t, e) ↦ rw e ((write_message-Keeps inv.base _ _).at _ h')
          ]

  writer-Keeps : (reader : Reader) → Keeps I (send_outofband_data_writer env reader)
  unfolding send_outofband_data_writer
  writer-Keeps reader = record {
    at = λ s h. (end_copying-Keeps inv s.data_conn _).at _ (
        inv.moved _ (env.copy_data s.data_conn reader s.world).1 (
          inv.quiet _ (data_copied s.data_conn reader) tt
            (inv.transferred s s.data_conn (pos 0) s.append_data h)));
  }

  copy_file-Keeps : (bytes : ℤ) (reader : Reader) → Keeps I (copy_file env bytes reader)
  unfolding copy_file
  copy_file-Keeps bytes reader =
      bind-Keeps (write_message-Keeps inv.base _ _)
        (λ _. bind-Keeps (writer-Keeps reader) (end_copy-Keeps inv))

  send_file-Keeps : (bytes : ℤ) (reader : Reader) → Keeps I (send_file env bytes reader)
  unfolding send_file
  send_file-Keeps bytes reader = record {
    at = λ s h.
        defer-Post {I = I} _ _ (λ t i. inv.quiet t _ tt i) ((copy_file-Keeps bytes reader).at s h);
  }

  retrieve-Post :
      (path : Bytes) (s : Session W) → IsSandboxed path → I s → Post I (retrieve env path s)
  unfolding retrieve
  retrieve-Post path s k h =
      let r = env.get_file path s.last_file_pos s.world in
      let h' = behind_call inv s (get_file_call path s.last_file_pos) r.1 k h in
      elim (Result-cases r.0) [
        | inl ((bytes, reader), e) ↦ rw e ((send_file-Keeps bytes reader).at _ h')
        | inr (t, e) ↦ rw e ((write_message-Keeps inv.base _ _).at _ h')
      ]

  pub retr-Keeps : (param : Bytes) → Keeps I (execute_retr env param)
  unfolding execute_retr
  retr-Keeps param = record {
    at = λ s h.
        defer-Post {I = I} _ _ (λ t i. inv.transferred t t.data_conn (pos 0) false i)
          (retrieve-Post _ s (built inv param s h) h);
  }

  store-Post : (path : Bytes) (s : Session W) → IsSandboxed path → I s → Post I (store env path s)
  unfolding store
  store-Post path s k h =
      let r = env.put_file path s.data_conn s.append_data s.world in
      let h' = behind_call inv s (put_file_call path s.data_conn s.append_data) r.1 k h in
      elim (Result-cases r.0) [
        | inl (n, e) ↦ rw e ((write_message-Keeps inv.base _ _).at _ h')
        | inr (t, e) ↦ rw e ((write_message-Keeps inv.base _ _).at _ h')
      ]

  pub stor-Keeps : (param : Bytes) → Keeps I (execute_stor env param)
  unfolding execute_stor
  stor-Keeps param = record {
    at = λ s h.
        defer-Post {I = I} _ _ (λ t i. inv.transferred t t.data_conn t.last_file_pos false i)
          (store-Post _ _ (built inv param s h)
            ((write_message-Keeps inv.base 150 (codes "Data transfer starting")).at s h));
  }
