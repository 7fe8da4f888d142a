-- ===== src/Ftpq/SubConn.antt =====
-- ftpq/subConn.go and ftpq/conn.go: the methods that the commands use.
use ftps_qftp_server.Prelude.{
  ℕ, zero, suc, Bool, true, false, not, ◌&&◌, Option, none, some, List, [], ◌∷◌, ◌++◌, length, ltb,
  ◌==◌, ◌||◌, if◌then◌else◌,
}
use ftps_qftp_server.Prelude.Int.{ℤ, pos, ◌-ℤ◌}
use ftps_qftp_server.Text.{Bytes, codes, bytes_eq}
use ftps_qftp_server.Text.Scan.{trim, trim_space, replace}
use ftps_qftp_server.Text.Split.{split_two}
use ftps_qftp_server.FilePath.{slash, clean, starts_with_slash}
use ftps_qftp_server.FilePath.Slashes.{one_slash, two_slashes}
use ftps_qftp_server.Number.{format_nat, format_int}
use ftps_qftp_server.Driver.{Result, ok, err, Reader}
use ftps_qftp_server.Ftps.State.{
  single, multiline, nil_dereference, Copied, copied, copy_error, copy_panic,
}
use ftps_qftp_server.Ftpq.State.{
  StreamId, SubConn, tag, logged_response, logged, wrote_reply, stream_opened, stream_accepted,
  stream_closed, stream_written, stream_copied, control_closed, session_closed, Awaited, answered,
  never_answered, finished, crashed, blocked, QuicEnv, Q, ◌>>=◌, ◌>>◌, pure, raise, wait, gets,
  gets_shared, modify, modify_shared, emit, call, ask,
}

-- `SubConn.IsLogin`.
unfoldable pub is_login : SubConn → Bool
unfolding bytes_eq
is_login c = not (bytes_eq c.user [])

-- `SubConn.parseLine`.
unfoldable pub is_line_end : ℕ → Bool
is_line_end c = c == b'\r' || c == b'\n'

unfoldable pub command_and_param : List Bytes → Bytes × Bytes
command_and_param [] = ([], [])
command_and_param (command ∷ []) = (command, [])
command_and_param (command ∷ param ∷ _) = (command, trim_space param)

unfoldable pub parse_line : Bytes → Bytes × Bytes
unfolding is_line_end command_and_param
parse_line line = command_and_param (split_two (trim is_line_end line) b' ')

-- `SubConn.buildPath`.
unfoldable pub uncleaned_path : SubConn → Bytes → Bytes
unfolding starts_with_slash bytes_eq codes
uncleaned_path c filename =
    if starts_with_slash filename
    then filename
    else if not (bytes_eq filename []) && not (bytes_eq filename (codes "-a"))
    then c.name_prefix ++ slash ∷ filename
    else c.name_prefix

unfoldable pub build_path : SubConn → Bytes → Bytes
unfolding uncleaned_path
build_path c filename =
    replace (replace (clean (uncleaned_path c filename)) two_slashes one_slash) one_slash one_slash

-- `strconv.Itoa(bytes)` in the answers behind a transfer; the first one has a slip of the pen.
unfoldable pub sent_strea : Bytes → Bytes
unfolding codes
sent_strea count = codes "Closing data strea,, sent " ++ (count ++ codes " bytes")

unfoldable pub sent_stream : Bytes → Bytes
unfolding codes
sent_stream count = codes "Closing data stream, sent " ++ (count ++ codes " bytes")

-- `available` of `dataReceiveStreams[streamID]`.
unfoldable pub has_stream : StreamId → List StreamId → Bool
has_stream id [] = false
has_stream id (k ∷ streams) = k == id || has_stream id streams

-- `dataReceiveStreams[stream.StreamID()] = stream`.
unfoldable pub add_stream : StreamId → List StreamId → List StreamId
unfolding has_stream
add_stream id streams = if has_stream id streams then streams else id ∷ streams

module _ {W : Type 0} where
  unfoldable pub write_message : ℕ → Bytes → Q W Unit
  write_message code message = do
    name ← gets tag
    emit (logged_response name code message)
    emit (wrote_reply (single code message))

  unfoldable pub write_message_multiline : ℕ → Bytes → Q W Unit
  write_message_multiline code message = do
    name ← gets tag
    emit (logged_response name code message)
    emit (wrote_reply (multiline code message))

  -- `SubConn.Close`.
  unfoldable pub close : Q W Unit
  close = do emit control_closed; modify (λ c. record c { closed = true })

  -- `structAccessMutex.Lock()`, which is granted unless the mutex is held for good.
  unfoldable pub lock : Q W Unit
  lock = do locked ← gets_shared (λ c. c.locked); if locked then wait else pure tt

  -- `Lock()` with a deferred `Unlock()`: what waits for ever behind the lock never comes to the deferred
  -- call, and keeps the mutex.
  unfoldable pub with_lock : {A : Type 0} → Q W A → Q W A
  unfolding lock
  with_lock m = lock >> λ s. elim (m s) [
    | finished a t ↦ finished a t
    | crashed fault t ↦ crashed fault t
    | blocked t ↦ blocked (record t { shared = record t.shared { locked = true } })
  ]

  -- The end of `ReportSubConnFinsihed`: the last sub-connection closes the session, and returns with the
  -- mutex held.
  unfoldable pub end_report : ℤ → Q W Unit
  unfolding codes
  end_report (pos zero) = do
    modify_shared (λ c. record c { locked = true })
    emit session_closed
    sid ← gets_shared (λ c. c.session_id)
    emit (logged sid (codes "Connection Terminated"))
  end_report _ = pure tt

  -- `Conn.ReportSubConnFinsihed`.
  unfoldable pub report_sub_conn_finished : Q W Unit
  unfolding lock end_report ◌-ℤ◌
  report_sub_conn_finished = do
    lock
    modify_shared (λ c. record c { running_sub_conn = c.running_sub_conn -ℤ pos 1 })
    running ← gets_shared (λ c. c.running_sub_conn)
    end_report running

  -- The tests on the number of the stream that was accepted.
  unfoldable pub check_accepted :
      Q W (Result StreamId) → StreamId → StreamId → Q W (Result StreamId)
  unfolding codes
  check_accepted again wanted id =
      if ltb wanted id
      then pure (err (codes "Could not get wanted stream."))
      else if id == wanted
      then pure (ok id)
      else again

  -- The body of the loop of `getReceiveDataStream`, on what `AcceptUniStream` returned.
  unfoldable pub end_accept :
      Q W (Result StreamId) → StreamId → Awaited StreamId → Q W (Result StreamId)
  unfolding add_stream check_accepted
  end_accept again wanted never_answered = wait
  end_accept again wanted (answered (err e)) = pure (err e)
  end_accept again wanted (answered (ok id)) = do
    emit (stream_accepted id)
    modify_shared (λ c. record c { data_receive_streams = add_stream id c.data_receive_streams })
    check_accepted again wanted id

  -- The end of `getNewSendDataStream`.
  unfoldable pub end_open : Awaited StreamId → Q W (Result StreamId)
  end_open (answered (ok id)) = do emit (stream_opened id); pure (ok id)
  end_open (answered (err e)) = pure (err e)
  end_open never_answered = wait

  -- The end of `sendOutofBandDataWriter`, behind the copy; `copy_panic` is a nil reader of the driver.
  unfoldable pub end_copying : StreamId → Copied → Q W (Option Bytes)
  unfolding write_message sent_stream format_int
  end_copying stream (copied n) = do
    write_message 226 (sent_stream (format_int n))
    emit (stream_closed stream)
    pure none
  end_copying stream (copy_error e) = do emit (stream_closed stream); pure (some e)
  end_copying stream copy_panic = raise nil_dereference

module _ {W : Type 0} (env : QuicEnv W) where
  -- The loop of `getReceiveDataStream`, on fuel; without fuel it is taken to go on for ever.
  unfoldable pub accept_until : ℕ → StreamId → Q W (Result StreamId)
  unfolding end_accept
  accept_until zero wanted = wait
  accept_until (suc fuel) wanted = do
    let again = accept_until fuel wanted
    r ← ask env.accept_uni_stream
    end_accept again wanted r

  -- `Conn.getReceiveDataStream` behind its lock: the streams of a session are accepted in the order of
  -- their numbers, so that a round for each number up to the wanted one is enough.
  unfoldable pub find_stream : StreamId → Q W (Result StreamId)
  unfolding accept_until has_stream
  find_stream wanted = do
    available ← gets_shared (λ c. has_stream wanted c.data_receive_streams)
    if available then pure (ok wanted) else accept_until (suc wanted) wanted

  -- `Conn.getReceiveDataStream`.
  unfoldable pub get_receive_data_stream : StreamId → Q W (Result StreamId)
  unfolding with_lock find_stream
  get_receive_data_stream wanted = with_lock (find_stream wanted)

  -- `Conn.getNewSendDataStream`, behind its lock.
  unfoldable pub open_stream : Q W (Result StreamId)
  unfolding end_open
  open_stream = do r ← ask env.open_uni_stream; end_open r

  unfoldable pub get_new_send_data_stream : Q W (Result StreamId)
  unfolding with_lock open_stream
  get_new_send_data_stream = with_lock open_stream

  -- `SubConn.sendOutofbandData`.
  unfoldable pub send_outofband_data : Bytes → StreamId → Q W Unit
  unfolding write_message sent_strea format_nat
  send_outofband_data bytes stream = do
    emit (stream_written stream bytes)
    ask (λ w. (tt, env.write_stream stream bytes w))
    emit (stream_closed stream)
    write_message 226 (sent_strea (format_nat (length bytes)))

  -- `SubConn.sendOutofBandDataWriter`.
  unfoldable pub send_outofband_data_writer : Reader → StreamId → Q W (Option Bytes)
  unfolding end_copying
  send_outofband_data_writer reader stream = do
    modify (λ c. record c { last_file_pos = pos 0 })
    r ← call (stream_copied stream reader) (env.copy_stream stream reader)
    end_copying stream r
