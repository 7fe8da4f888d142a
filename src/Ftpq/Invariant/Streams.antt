-- ===== src/Ftpq/Invariant/Streams.antt =====
-- The streams of a session, and the answers of the commands that use them, keep every invariant that
-- confines the paths.
use ftps_qftp_server.Prelude.{
  ℕ, zero, suc, Bool, true, false, Option, none, some, List, [], ◌∷◌, ltb, ◌==◌,
}
use ftps_qftp_server.Text.{Bytes}
use ftps_qftp_server.Driver.{Result, ok, err, DriverCall}
use ftps_qftp_server.FilePath.Sandbox.{IsSandboxed}
use ftps_qftp_server.Ftps.State.{Session, Copied, copied, copy_error, copy_panic}
use ftps_qftp_server.Ftps.Paths.{build_path-IsSandboxed}
use ftps_qftp_server.Ftps.Invariant.{PathInvariant, IsConfinedCall}
use ftps_qftp_server.Ftpq.State.{
  StreamId, Awaited, answered, never_answered, QuicEnv, SubSession, Q, driver_called, stream_closed,
  stream_written, pure, emit,
}
use ftps_qftp_server.Ftpq.SubConn.{
  build_path, get_receive_data_stream, find_stream, open_stream, get_new_send_data_stream,
  send_outofband_data, accept_until, end_accept, end_open, check_accepted, has_stream, end_copying,
}
use ftps_qftp_server.Ftpq.Commands.Transfer.{end_copy, check_words, check_stream, received_stream}
use ftps_qftp_server.Ftpq.View.{view, view_call}
use ftps_qftp_server.Ftpq.Alike.Files.{build_path_alike}
use ftps_qftp_server.Ftpq.Invariant.{
  SubKeeps, if-SubKeeps, bind-SubKeeps, with_lock-SubKeeps, write_message-SubKeeps,
}

-- The state behind a call of the driver.
abbrev pub behind : {W : Type 0} → SubSession W → DriverCall StreamId → W → SubSession W
behind s c w = record s { world = w; trace = driver_called c ∷ s.trace }

module _ {W : Type 0} {I : Session W → Type 0} (inv : PathInvariant I) where
  -- A path that a command builds is one of the tree.
  pub built : (param : Bytes) (s : SubSession W) → I (view s) → IsSandboxed (build_path s.sub param)
  built param s h =
      rw (build_path_alike s.sub s.shared param)
        (build_path-IsSandboxed (view s).conn param (inv.in_tree (view s) h))

  pub behind_call :
      (s : SubSession W) (c : DriverCall StreamId) (w : W)
      → IsConfinedCall (view_call c)
      → I (view s)
      → I (view (behind s c w))
  behind_call s c w k h = inv.moved _ w (inv.calls (view s) (view_call c) k h)

  pub end_copy-SubKeeps : (failed : Option Bytes) → SubKeeps I (end_copy {W = W} failed)
  unfolding end_copy
  end_copy-SubKeeps none = record { at = λ s h. h }
  end_copy-SubKeeps (some e) = write_message-SubKeeps inv.base _ _

  pub check_words-SubKeeps : (words : List Bytes) → SubKeeps I (check_words {W = W} words)
  unfolding check_words
  check_words-SubKeeps [] = write_message-SubKeeps inv.base _ _
  check_words-SubKeeps (a ∷ []) = write_message-SubKeeps inv.base _ _
  check_words-SubKeeps (a ∷ b ∷ []) = record { at = λ s h. h }
  check_words-SubKeeps (a ∷ b ∷ c ∷ r) = write_message-SubKeeps inv.base _ _

  pub check_stream-SubKeeps : (bad : Bool) → SubKeeps I (check_stream {W = W} bad)
  unfolding check_stream
  check_stream-SubKeeps true = write_message-SubKeeps inv.base _ _
  check_stream-SubKeeps false = record { at = λ s h. h }

  pub received-SubKeeps : (r : Result StreamId) → SubKeeps I (received_stream {W = W} r)
  unfolding received_stream
  received-SubKeeps (ok id) = record { at = λ s h. h }
  received-SubKeeps (err e) =
      bind-SubKeeps {f = λ _. pure none} (write_message-SubKeeps inv.base _ _)
        (λ _. record { at = λ s h. h })

  check_accepted-SubKeeps :
      {again : Q W (Result StreamId)} (wanted id : StreamId)
      → SubKeeps I again
      → SubKeeps I (check_accepted again wanted id)
  unfolding check_accepted
  check_accepted-SubKeeps wanted id k =
      if-SubKeeps (ltb wanted id) (record { at = λ s h. h })
        (if-SubKeeps (id == wanted) (record { at = λ s h. h }) k)

  end_accept-SubKeeps :
      {again : Q W (Result StreamId)} (wanted : StreamId) (r : Awaited StreamId)
      → SubKeeps I again
      → SubKeeps I (end_accept again wanted r)
  unfolding end_accept
  end_accept-SubKeeps wanted never_answered k = record { at = λ s h. h }
  end_accept-SubKeeps wanted (answered (err e)) k = record { at = λ s h. h }
  end_accept-SubKeeps wanted (answered (ok id)) k = record {
    at = λ s h. (check_accepted-SubKeeps wanted id k).at _ (inv.quiet _ _ tt h);
  }

  end_open-SubKeeps : (r : Awaited StreamId) → SubKeeps I (end_open {W = W} r)
  unfolding end_open
  end_open-SubKeeps (answered (ok id)) = record { at = λ s h. inv.quiet _ _ tt h }
  end_open-SubKeeps (answered (err e)) = record { at = λ s h. h }
  end_open-SubKeeps never_answered = record { at = λ s h. h }

  pub end_copying-SubKeeps :
      (stream : StreamId) (r : Copied) → SubKeeps I (end_copying {W = W} stream r)
  unfolding end_copying
  end_copying-SubKeeps stream (copied n) =
      bind-SubKeeps {f = λ _. pure none}
        (bind-SubKeeps {f = λ _. emit (stream_closed stream)} (write_message-SubKeeps inv.base _ _)
          (λ _. record { at = λ s h. inv.quiet (view s) _ tt h }))
        (λ _. record { at = λ s h. h })
  end_copying-SubKeeps stream (copy_error e) = record { at = λ s h. inv.quiet _ _ tt h }
  end_copying-SubKeeps stream copy_panic = record { at = λ s h. h }

module _ {W : Type 0} {I : Session W → Type 0} (inv : PathInvariant I) (env : QuicEnv W) where
  accept_until-SubKeeps : (fuel : ℕ) (wanted : StreamId) → SubKeeps I (accept_until env fuel wanted)
  unfolding accept_until
  accept_until-SubKeeps zero wanted = record { at = λ s h. h }
  accept_until-SubKeeps (suc fuel) wanted = record {
    at = λ s h.
        (end_accept-SubKeeps inv wanted _ (accept_until-SubKeeps fuel wanted)).at _
          (inv.moved _ _ h);
  }

  pub receive-SubKeeps : (wanted : StreamId) → SubKeeps I (get_receive_data_stream env wanted)
  unfolding get_receive_data_stream find_stream
  receive-SubKeeps wanted = with_lock-SubKeeps (record {
    at = λ s h.
        (if-SubKeeps (has_stream wanted s.shared.data_receive_streams) (record { at = λ t k. k })
            (accept_until-SubKeeps (suc wanted) wanted)).at
          s h;
  })

  pub send-SubKeeps : SubKeeps I (get_new_send_data_stream env)
  unfolding get_new_send_data_stream open_stream
  send-SubKeeps = with_lock-SubKeeps (record {
    at = λ s h. (end_open-SubKeeps inv (env.open_uni_stream s.world).0).at _ (inv.moved _ _ h);
  })

  pub send_outofband-SubKeeps :
      (bytes : Bytes) (stream : StreamId) → SubKeeps I (send_outofband_data env bytes stream)
  unfolding send_outofband_data
  send_outofband-SubKeeps bytes stream = record {
    at = λ s h.
        let written = record s {
          world = env.write_stream stream bytes s.world;
          trace = stream_closed stream ∷ stream_written stream bytes ∷ s.trace;
        } in
        (write_message-SubKeeps inv.base _ _).at written
          (inv.quiet _ _ tt (inv.moved _ _ (inv.quiet (view s) _ tt h)));
  }
