-- ===== src/Ftpq/Quitting.antt =====
-- QUIT in a session: `commandQuit` of ftpq/cmd.go and `Conn.ReportSubConnFinsihed` of ftpq/conn.go.
use mathlib.Core.Path.{subst}
use ftps_qftp_server.Prelude.{
  ℕ, zero, suc, ◌+◌, sym, ◌≡◌, refl, Bool, true, false, List, [], ◌∷◌, ◌++◌, if◌then◌else◌,
}
use ftps_qftp_server.Prelude.Int.{pos}
use ftps_qftp_server.Text.{Bytes}
use ftps_qftp_server.Ftpq.State.{
  SubEvent, control_closed, SubSession, SubOutcome, finished, crashed, blocked, QuicEnv,
}
use ftps_qftp_server.Ftpq.SubConn.{write_message, close, end_report, report_sub_conn_finished}
use ftps_qftp_server.Ftpq.Commands.Control.{execute_quit}
use ftps_qftp_server.Ftpq.Lock.{lock_free, lock_held}
use ftps_qftp_server.Ftpq.Session.{SessionEnv, serving, Member, System, enter, IsReached}
use ftps_qftp_server.Ftpq.Quiet.{closings}
use ftps_qftp_server.Ftpq.Counting.{one_less, count_down, said_quit}
use ftps_qftp_server.Ftpq.Fate.{count_open, loop_bit}
use ftps_qftp_server.Ftpq.Ending.{reached-IsCounted, entered}

-- Whether no other sub-connection counts.
abbrev pub is_last : ℕ → Bool
is_last zero = true
is_last (suc n) = false

-- How often the control stream was closed.
abbrev pub control_closings : List SubEvent → ℕ
control_closings [] = zero
control_closings (control_closed ∷ trace) = suc (control_closings trace)
control_closings (e ∷ trace) = control_closings trace

-- A QUIT comes to its end, with `n` others that count in a session that was closed `a` times: the
-- control stream is closed, the sub-connection is no longer counted, and the last one closes the session
-- and keeps the mutex.
abbrev pub HasLeft : {W : Type 0} → ℕ → ℕ → SubSession W → SubOutcome W Unit → Type 0
HasLeft n a s (finished u t) =
    (control_closings t.trace ≡ suc (control_closings s.trace))
    × ((t.sub.closed ≡ true)
        × ((t.shared.running_sub_conn ≡ pos n)
            × ((t.shared.locked ≡ is_last n)
                × (closings t.trace ≡ (if is_last n then suc a else a)))))
HasLeft n a s (crashed fault t) = ⊥
HasLeft n a s (blocked t) = ⊥

-- A QUIT waits for ever for the mutex: the control stream is closed, but the sub-connection is counted.
abbrev pub HasHung : {W : Type 0} → ℕ → ℕ → SubSession W → SubOutcome W Unit → Type 0
HasHung n a s (finished u t) = ⊥
HasHung n a s (crashed fault t) = ⊥
HasHung n a s (blocked t) =
    (control_closings t.trace ≡ suc (control_closings s.trace))
    × ((t.sub.closed ≡ true)
        × ((t.shared.running_sub_conn ≡ pos (suc n))
            × ((t.shared.locked ≡ true) × (closings t.trace ≡ a))))

-- One of the two, as the mutex is free or held.
abbrev pub Quits : {W : Type 0} → Bool → ℕ → ℕ → SubSession W → SubOutcome W Unit → Type 0
Quits false = HasLeft
Quits true = HasHung

end_report-HasLeft :
    {W : Type 0} (n : ℕ) (s t : SubSession W)
    → control_closings t.trace ≡ suc (control_closings s.trace)
    → t.sub.closed ≡ true
    → t.shared.running_sub_conn ≡ pos n
    → t.shared.locked ≡ false
    → HasLeft n (closings t.trace) s (end_report (pos n) t)
unfolding end_report
end_report-HasLeft zero s t c shut running free = (c, (shut, (running, (refl, refl))))
end_report-HasLeft (suc n) s t c shut running free = (c, (shut, (running, (free, refl))))

module _ {W : Type 0} where
  report-HasLeft :
      (n : ℕ) (s t : SubSession W)
      → control_closings t.trace ≡ suc (control_closings s.trace)
      → t.shared.running_sub_conn ≡ pos (suc n)
      → t.sub.closed ≡ true
      → t.shared.locked ≡ false
      → HasLeft n (closings t.trace) s (report_sub_conn_finished t)
  unfolding report_sub_conn_finished
  report-HasLeft n s t c running shut free =
      subst (HasLeft n (closings t.trace) s) (sym (lock_free (count_down n 0) t free)) (
        subst
          (λ r.
            HasLeft n (closings t.trace) s
              (end_report r (record t { shared = record t.shared { running_sub_conn = r } })))
          (sym (one_less _ n running))
          (end_report-HasLeft n s
            (record t { shared = record t.shared { running_sub_conn = pos n } }) c shut refl free))

  quits_lem :
      (env : QuicEnv W) (param : Bytes) (n : ℕ) (held : Bool) (s : SubSession W)
      → s.shared.running_sub_conn ≡ pos (suc n)
      → s.shared.locked ≡ held
      → Quits held n (closings s.trace) s (execute_quit env param s)
  unfolding execute_quit write_message close report_sub_conn_finished
  quits_lem env param n false s running free =
      report-HasLeft n s (said_quit env s) refl running refl free
  quits_lem env param n true s running taken =
      subst (HasHung n (closings s.trace) s)
        (sym (lock_held (count_down n 0) (said_quit env s) taken))
        (refl, (refl, (running, (taken, refl))))

module _ {W : Type 0} (env : SessionEnv W) where
  -- In a session in whatever state its sub-connections and `Conn.Serve` have left it, the QUIT of a
  -- sub-connection that has not said it yet closes the control stream and never panics. With the mutex
  -- free it comes to its end and takes the sub-connection out of the count, and it closes the session,
  -- and keeps the mutex for good, exactly if no other sub-connection counts. With the mutex held, which
  -- some other sub-connection does that waits for ever, it waits for ever too, and still counts.
  pub execute_quit-Quits :
      (y : System W) (before after : List Member) (m : Member) (param : Bytes)
      → IsReached env y
      → y.members ≡ before ++ m ∷ after
      → m.progress ≡ serving
      → m.sub.closed ≡ false
      → Quits y.shared.locked
          (count_open before + count_open after)
          (loop_bit y.loop)
          (enter y m.sub)
          (execute_quit env.quic param (enter y m.sub))
  execute_quit-Quits y before after m param r e going unsaid =
      let n = count_open before + count_open after in
      let start = entered env y before after m e going unsaid (reached-IsCounted env y r) in
      subst
        (λ a.
          Quits y.shared.locked n a (enter y m.sub) (execute_quit env.quic param (enter y m.sub)))
        start.closed_so_far
        (quits_lem env.quic param n y.shared.locked (enter y m.sub) start.counted refl)
