-- ===== src/Ftpq/Counting.antt =====
-- The count of the sub-connections of a session, through every command and every step.
use mathlib.Core.Path.{subst}
use ftps_qftp_server.Prelude.{
  ℕ, zero, suc, ◌+◌, ap, sym, ◌≡◌, refl, ◌⊎◌, inl, inr, Bool, true, false, ◌∷◌, arith,
}
use ftps_qftp_server.Prelude.Int.{ℤ, pos, ◌-ℤ◌}
use ftps_qftp_server.Text.{Bytes, codes}
use ftps_qftp_server.Ftpq.State.{
  tag, logged_response, wrote_reply, control_closed, QuicEnv, SubSession, SubOutcome, finished,
  crashed, blocked, Q, ◌>>=◌, ◌>>◌, gets_shared, modify_shared,
}
use ftps_qftp_server.Ftps.State.{single}
use ftps_qftp_server.Ftpq.SubConn.{write_message, close, end_report, report_sub_conn_finished}
use ftps_qftp_server.Ftpq.Commands.Control.{execute_quit}
use ftps_qftp_server.Ftpq.Lock.{lock_free, lock_held}
use ftps_qftp_server.Ftpq.Quiet.{Tally, closings, tally, QuietPost, IsQuiet}

-- A sub-connection counts until it has said QUIT.
abbrev pub open_bit : Bool → ℕ
open_bit true = 0
open_bit false = 1

-- What a sub-connection finds that takes its turn, with `n` others that count: the session was closed `a`
-- times by `Conn.Serve`, and the mutex may be held for good.
pub record Starts (n a : ℕ) (held : Bool) (k : Tally) : Type 0 where
  pub open_yet : k.shut ≡ false
  pub counted : k.running ≡ pos (suc n)
  pub mutex : k.held ≡ held
  pub closed_so_far : k.closes ≡ a

-- What it leaves at the end of its turn: the count is right, and the mutex and the session are as
-- before, or nobody counts any more, and the session was closed with the mutex held.
pub record Leaves (n a : ℕ) (held : Bool) (k : Tally) : Type 0 where
  pub counted : k.running ≡ pos (open_bit k.shut + n)
  pub fate :
      ((k.held ≡ held) × (k.closes ≡ a))
      ⊎ ((k.held ≡ true) × ((open_bit k.shut + n ≡ 0) × (k.closes ≡ suc a)))

-- The same, or it waits for ever: the mutex is held, and the sub-connection still counts. A panic ends
-- the process.
abbrev pub IsTurn : {W : Type 0} → ℕ → ℕ → Bool → SubOutcome W Unit → Type 0
IsTurn n a held (finished u t) = Leaves n a held (tally t)
IsTurn n a held (crashed fault t) = Unit
IsTurn n a held (blocked t) =
    (t.shared.locked ≡ true) × ((t.shared.running_sub_conn ≡ pos (suc n)) × (closings t.trace ≡ a))

counted_yet : (b : Bool) (n : ℕ) (r : ℤ) → b ≡ false → r ≡ pos (suc n) → r ≡ pos (open_bit b + n)
counted_yet true n r e h = absurd cc
counted_yet false n r e h = subst (λ k. r ≡ pos k) (omega arith) h

pub Starts-Leaves : (n a : ℕ) (held : Bool) (k : Tally) → Starts n a held k → Leaves n a held k
Starts-Leaves n a held k h = record {
  counted = counted_yet k.shut n _ h.open_yet h.counted;
  fate = inl (h.mutex, h.closed_so_far);
}

module _ {W : Type 0} (n a : ℕ) (held : Bool) where
  -- What an action owes to a session whose sub-connection still counts.
  abbrev pub Owes : Q W Unit → Type 0
  Owes m = (s : SubSession W) → Starts n a held (tally s) → IsTurn n a held (m s)

  moved :
      (k : Tally) (o : SubOutcome W Unit) → Starts n a held k → QuietPost k o → IsTurn n a held o
  moved k (finished u t) h e = subst (Leaves n a held) (sym e) (Starts-Leaves n a held k h)
  moved k (crashed fault t) h e = tt
  moved k (blocked t) h e =
      subst (λ j. (j.held ≡ true) × ((j.running ≡ pos (suc n)) × (j.closes ≡ a))) (sym e)
        (refl, (h.counted, h.closed_so_far))

  pub quiet-Owes : {m : Q W Unit} → IsQuiet m → Owes m
  quiet-Owes {m = m} q s h = moved (tally s) (m s) h (q.at (tally s) s refl)

counted_left : (b : Bool) (n : ℕ) (r : ℤ) → b ≡ true → r ≡ pos n → r ≡ pos (open_bit b + n)
counted_left true n r e h = subst (λ k. r ≡ pos k) (omega arith) h
counted_left false n r e h = cc

none_left : (b : Bool) → b ≡ true → open_bit b + zero ≡ zero
none_left true e = refl
none_left false e = cc

-- The end of the report of a sub-connection that has just left, with `n` others.
end_report-IsTurn :
    {W : Type 0} (a n : ℕ) (t : SubSession W)
    → t.shared.running_sub_conn ≡ pos n
    → t.sub.closed ≡ true
    → t.shared.locked ≡ false
    → closings t.trace ≡ a
    → IsTurn n a false (end_report (pos n) t)
unfolding end_report
end_report-IsTurn a zero t running shut free closes = record {
  counted = counted_left t.sub.closed zero _ shut running;
  fate = inr (refl, (none_left t.sub.closed shut, ap suc closes));
}
end_report-IsTurn a (suc n) t running shut free closes = record {
  counted = counted_left t.sub.closed (suc n) _ shut running;
  fate = inl (free, closes);
}

pub one_less : (r : ℤ) (n : ℕ) → r ≡ pos (suc n) → r -ℤ pos 1 ≡ pos n
unfolding ◌-ℤ◌
one_less r n e = subst (λ k. k -ℤ pos 1 ≡ pos n) (sym e) (ground arith)

module _ {W : Type 0} (n a : ℕ) where
  -- The report behind its lock.
  abbrev pub count_down : Q W Unit
  count_down = do
    modify_shared (λ c. record c { running_sub_conn = c.running_sub_conn -ℤ pos 1 })
    running ← gets_shared (λ c. c.running_sub_conn)
    end_report running

  report-IsTurn :
      (t : SubSession W)
      → t.shared.running_sub_conn ≡ pos (suc n)
      → t.sub.closed ≡ true
      → t.shared.locked ≡ false
      → closings t.trace ≡ a
      → IsTurn n a false (report_sub_conn_finished t)
  unfolding report_sub_conn_finished
  report-IsTurn t running shut free closes =
      subst (IsTurn n a false) (sym (lock_free count_down t free)) (
        subst
          (λ r.
            IsTurn n a false
              (end_report r (record t { shared = record t.shared { running_sub_conn = r } })))
          (sym (one_less _ n running))
          (end_report-IsTurn a n
            (record t { shared = record t.shared { running_sub_conn = pos n } }) refl shut free
            closes))

-- The state behind the first lines of QUIT.
abbrev pub said_quit : {W : Type 0} → QuicEnv W → SubSession W → SubSession W
said_quit env s = record s {
  sub = record s.sub { closed = true };
  world = env.read_rest s.world;
  trace =
      control_closed
      ∷ wrote_reply (single 221 (codes "Goodbye"))
      ∷ logged_response (tag s.sub) 221 (codes "Goodbye")
      ∷ s.trace;
}

module _ {W : Type 0} (n a : ℕ) where
  pub quit-Owes :
      (held : Bool) (env : QuicEnv W) (param : Bytes) → Owes n a held (execute_quit env param)
  unfolding execute_quit write_message close report_sub_conn_finished
  quit-Owes false env param s h =
      report-IsTurn n a (said_quit env s) h.counted refl h.mutex h.closed_so_far
  quit-Owes true env param s h =
      subst (IsTurn n a true) (sym (lock_held (count_down n a) (said_quit env s) h.mutex))
        (h.mutex, (h.counted, h.closed_so_far))
