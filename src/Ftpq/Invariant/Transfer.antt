-- ===== src/Ftpq/Invariant/Transfer.antt =====
-- RETR and STOR keep every invariant that confines the paths.
use ftps_qftp_server.Prelude.{inl, inr, false, Option, none, List, [], ◌∷◌}
use ftps_qftp_server.Prelude.Int.{ℤ, pos, bits64}
use ftps_qftp_server.Text.{Bytes}
use ftps_qftp_server.Text.Split.{split_two}
use ftps_qftp_server.Number.{parse_int, Status}
use ftps_qftp_server.Driver.{Result, ok, err, Reader, Result-cases, get_file_call, put_file_call}
use ftps_qftp_server.FilePath.Sandbox.{IsSandboxed}
use ftps_qftp_server.Ftps.State.{Session}
use ftps_qftp_server.Ftps.Invariant.{PathInvariant}
use ftps_qftp_server.Ftpq.State.{StreamId, QuicEnv, SubSession}
use ftps_qftp_server.Ftpq.SubConn.{send_outofband_data_writer}
use ftps_qftp_server.Ftpq.Commands.Transfer.{
  first_word, is_bad_stream, copy_file, open_and_copy, send_file, retrieve, execute_retr, store,
  store_words, receive_file, execute_stor,
}
use ftps_qftp_server.Ftpq.View.{view, SubPost}
use ftps_qftp_server.Ftpq.Invariant.{SubKeeps, bind-SubKeeps, defer-SubPost, write_message-SubKeeps}
use ftps_qftp_server.Ftpq.Invariant.Streams.{
  behind, built, behind_call, end_copy-SubKeeps, check_words-SubKeeps, check_stream-SubKeeps,
  received-SubKeeps, end_copying-SubKeeps, receive-SubKeeps, send-SubKeeps,
}

module _ {W : Type 0} {I : Session W → Type 0} (inv : PathInvariant I) (env : QuicEnv W) where
  writer-SubKeeps :
      (reader : Reader) (stream : StreamId)
      → SubKeeps I (send_outofband_data_writer env reader stream)
  unfolding send_outofband_data_writer
  writer-SubKeeps reader stream = record {
    at = λ s h.
        (end_copying-SubKeeps inv stream (env.copy_stream stream reader s.world).0).at _ (
          inv.moved _ _ (inv.quiet _ _ tt (inv.transferred (view s) none (pos 0) s.append_data h)));
  }

  copy_file-SubKeeps :
      (bytes : ℤ) (reader : Reader) (r : Result StreamId)
      → SubKeeps I (copy_file env bytes reader r)
  unfolding copy_file
  copy_file-SubKeeps bytes reader (err e) = write_message-SubKeeps inv.base _ _
  copy_file-SubKeeps bytes reader (ok stream) =
      bind-SubKeeps (write_message-SubKeeps inv.base _ _)
        (λ _. bind-SubKeeps (writer-SubKeeps reader stream) (end_copy-SubKeeps inv))

  open_and_copy-SubKeeps :
      (bytes : ℤ) (reader : Reader) → SubKeeps I (open_and_copy env bytes reader)
  unfolding open_and_copy
  open_and_copy-SubKeeps bytes reader =
      bind-SubKeeps (send-SubKeeps inv env) (copy_file-SubKeeps bytes reader)

  send_file-SubKeeps : (bytes : ℤ) (reader : Reader) → SubKeeps I (send_file env bytes reader)
  unfolding send_file
  send_file-SubKeeps bytes reader = record {
    at = λ s h.
        defer-SubPost I _ _ (λ t i. inv.quiet (view t) _ tt i)
          ((open_and_copy-SubKeeps bytes reader).at s h);
  }

  retrieve-SubPost :
      (path : Bytes) (s : SubSession W)
      → IsSandboxed path
      → I (view s)
      → SubPost (λ t. I (view t)) (retrieve env path s)
  unfolding retrieve
  retrieve-SubPost path s k h =
      let position = s.last_file_pos in
      let h' =
        behind_call inv s (get_file_call path position) (env.get_file path position s.world).1 k
          h in
      elim (Result-cases (env.get_file path position s.world).0) [
        | inl ((bytes, reader), e) ↦ rw e (
            (send_file-SubKeeps bytes reader).at
              (behind s (get_file_call path position) (env.get_file path position s.world).1) h')
        | inr (t, e) ↦ rw e (
            (write_message-SubKeeps inv.base _ _).at
              (behind s (get_file_call path position) (env.get_file path position s.world).1) h')
      ]

  pub retr-SubKeeps : (param : Bytes) → SubKeeps I (execute_retr env param)
  unfolding execute_retr
  retr-SubKeeps param = record {
    at = λ s h.
        defer-SubPost I _ _ (λ t i. inv.transferred (view t) none (pos 0) false i)
          (retrieve-SubPost _ s (built inv param s h) h);
  }

  store-SubPost :
      (path : Bytes) (stream : Option StreamId) (s : SubSession W)
      → IsSandboxed path
      → I (view s)
      → SubPost (λ t. I (view t)) (store env path stream s)
  unfolding store
  store-SubPost path stream s k h =
      let r = env.put_file path stream s.append_data s.world in
      let h' = behind_call inv s (put_file_call path stream s.append_data) r.1 k h in
      elim (Result-cases (env.put_file path stream s.append_data s.world).0) [
        | inl (n, e) ↦ rw e (
            (write_message-SubKeeps inv.base _ _).at
              (behind s (put_file_call path stream s.append_data)
                (env.put_file path stream s.append_data s.world).1)
              h')
        | inr (t, e) ↦ rw e (
            (write_message-SubKeeps inv.base _ _).at
              (behind s (put_file_call path stream s.append_data)
                (env.put_file path stream s.append_data s.world).1)
              h')
      ]

  store_words-SubKeeps :
      (words : List Bytes) (stream : Option StreamId) → SubKeeps I (store_words env words stream)
  unfolding store_words
  store_words-SubKeeps [] stream = record { at = λ s h. h }
  store_words-SubKeeps (a ∷ []) stream = record { at = λ s h. h }
  store_words-SubKeeps (a ∷ path ∷ words) stream = record {
    at = λ s h.
        defer-SubPost I _ _ (λ t i. inv.transferred (view t) none t.last_file_pos false i)
          (store-SubPost _ stream s (built inv path s h) h);
  }

  receive_file-SubKeeps :
      (words : List Bytes) (number : ℤ × Status) → SubKeeps I (receive_file env words number)
  unfolding receive_file
  receive_file-SubKeeps words number = bind-SubKeeps (check_words-SubKeeps inv words) (λ _.
      bind-SubKeeps (check_stream-SubKeeps inv (is_bad_stream number)) (λ _.
        bind-SubKeeps (write_message-SubKeeps inv.base _ _) (λ _.
          bind-SubKeeps (receive-SubKeeps inv env (bits64 number.0))
            (λ r. bind-SubKeeps (received-SubKeeps inv r) (store_words-SubKeeps words)))))

  pub stor-SubKeeps : (param : Bytes) → SubKeeps I (execute_stor env param)
  unfolding execute_stor
  stor-SubKeeps param =
      receive_file-SubKeeps (split_two param b' ') (parse_int (first_word (split_two param b' ')))
