-- ===== src/Ftpq/Invariant.antt =====
-- What every command of a sub-connection keeps: the invariants of a connection of `ftps`, on the
-- connection as which a sub-connection is seen.
pub mod Streams
pub mod Listing
pub mod Transfer
pub mod Table
pub mod Serve
use mathlib.Core.Path.{subst}
use ftps_qftp_server.Prelude.{
  ℕ, zero, suc, sym, ◌≡◌, refl, Bool, true, false, Option, none, some, [], ◌∷◌, if◌then◌else◌,
}
use ftps_qftp_server.Prelude.Int.{ℤ, pos, negsuc, ◌-ℤ◌}
use ftps_qftp_server.Text.{Bytes, codes}
use ftps_qftp_server.Ftps.State.{Session, Outcome, done, panic}
use ftps_qftp_server.Ftps.Invariant.{Invariant, PathInvariant, Post}
use ftps_qftp_server.Ftpq.State.{
  QuicConn, SubSession, SubOutcome, finished, crashed, blocked, Q, ◌>>=◌,
}
use ftps_qftp_server.Ftpq.SubConn.{
  write_message, close, lock, with_lock, end_report, report_sub_conn_finished,
}
use ftps_qftp_server.Ftpq.View.{view, view_outcome, IsAlike, SubPost}

-- An action of a sub-connection keeps an invariant of connections if every state in which it ends or
-- waits has it.
pub record SubKeeps {W A : Type 0} (I : Session W → Type 0) (m : Q W A) : Type 0 where
  pub at : (s : SubSession W) → I (view s) → SubPost (λ t. I (view t)) (m s)

abbrev PostOption : {W : Type 0} → (Session W → Type 0) → Option (Outcome W Unit) → Type 0
PostOption I none = ⊥
PostOption I (some o) = Post I o

module _ {W : Type 0} where
  -- What is kept by an action that does the same is kept.
  pub alike-Post :
      (I : Session W → Type 0) (o : SubOutcome W Unit) (o' : Outcome W Unit)
      → IsAlike o o'
      → Post I o'
      → SubPost (λ t. I (view t)) o
  alike-Post I (finished a s) o' e h = subst (PostOption I) (sym e) h
  alike-Post I (crashed fault s) o' e h = subst (PostOption I) (sym e) h
  alike-Post I (blocked s) o' e h = absurd (subst (PostOption I) (sym e) h)

  -- What is deferred runs in the state in which the function ends.
  pub defer-SubPost :
      (I : Session W → Type 0) (deferred : SubSession W → SubSession W) (o : SubOutcome W Unit)
      → ((t : SubSession W) → I (view t) → I (view (deferred t)))
      → SubPost (λ t. I (view t)) o
      → SubPost
          (λ t. I (view t))
          (elim o [
            | finished a t ↦ finished a (deferred t)
            | crashed fault t ↦ crashed fault (deferred t)
            | blocked t ↦ blocked t
          ])
  defer-SubPost I deferred (finished a t) hd h = hd t h
  defer-SubPost I deferred (crashed fault t) hd h = hd t h
  defer-SubPost I deferred (blocked t) hd h = h

module _ {W : Type 0} where
  unlock-SubPost :
      {A : Type 0} (I : Session W → Type 0) (o : SubOutcome W A)
      → SubPost (λ t. I (view t)) o
      → SubPost
          (λ t. I (view t))
          (elim o [
            | finished a t ↦ finished a t
            | crashed fault t ↦ crashed fault t
            | blocked t ↦ blocked (record t { shared = record t.shared { locked = true } })
          ])
  unlock-SubPost I (finished a t) h = h
  unlock-SubPost I (crashed fault t) h = h
  unlock-SubPost I (blocked t) h = h

module _ {W : Type 0} {I : Session W → Type 0} where
  pub if-SubKeeps :
      {A : Type 0} (b : Bool) {m n : Q W A}
      → SubKeeps I m
      → SubKeeps I n
      → SubKeeps I (if b then m else n)
  if-SubKeeps true hm hn = hm
  if-SubKeeps false hm hn = hn

  after :
      {A B : Type 0} {f : A → Q W B}
      → ((a : A) → SubKeeps I (f a))
      → (o : SubOutcome W A) → SubPost (λ t. I (view t)) o
      → SubPost
          (λ t. I (view t))
          (elim o [
            | finished a t ↦ f a t
            | crashed fault t ↦ crashed fault t
            | blocked t ↦ blocked t
          ])
  after hf (finished a t) h = (hf a).at t h
  after hf (crashed fault t) h = h
  after hf (blocked t) h = h

  -- The continuation sees the value of the first action.
  pub bind-SubKeeps :
      {A B : Type 0} {m : Q W A} {f : A → Q W B}
      → SubKeeps I m
      → ((a : A) → SubKeeps I (f a))
      → SubKeeps I (m >>= f)
  bind-SubKeeps {m = m} {f = f} hm hf = record { at = λ s h. after {f = f} hf (m s) (hm.at s h) }

  pub lock-SubKeeps : SubKeeps I (lock {W = W})
  unfolding lock
  lock-SubKeeps = record {
    at = λ s h.
        (if-SubKeeps s.shared.locked (record { at = λ t k. k }) (record { at = λ t k. k })).at s h;
  }

  pub with_lock-SubKeeps : {A : Type 0} {m : Q W A} → SubKeeps I m → SubKeeps I (with_lock m)
  unfolding with_lock
  with_lock-SubKeeps {m = m} k =
      bind-SubKeeps lock-SubKeeps (λ _. record { at = λ s h. unlock-SubPost I (m s) (k.at s h) })

module _ {W : Type 0} {I : Session W → Type 0} (inv : Invariant I) where
  pub write_message-SubKeeps :
      (code : ℕ) (message : Bytes) → SubKeeps I (write_message code message)
  unfolding write_message
  write_message-SubKeeps code message = record { at = λ s h. inv.quiet _ _ tt (inv.quiet _ _ tt h) }

  pub close-SubKeeps : SubKeeps I (close {W = W})
  unfolding close
  close-SubKeeps = record { at = λ s h. inv.shut _ (inv.quiet _ _ tt h) }

  end_report-SubKeeps : (running : ℤ) → SubKeeps I (end_report {W = W} running)
  unfolding end_report
  end_report-SubKeeps (pos zero) = record { at = λ s h. inv.quiet _ _ tt (inv.quiet _ _ tt h) }
  end_report-SubKeeps (pos (suc n)) = record { at = λ s h. h }
  end_report-SubKeeps (negsuc n) = record { at = λ s h. h }

  pub report-SubKeeps : SubKeeps I (report_sub_conn_finished {W = W})
  unfolding report_sub_conn_finished
  report-SubKeeps = bind-SubKeeps lock-SubKeeps (λ _. record {
    at = λ s h. (end_report-SubKeeps (s.shared.running_sub_conn -ℤ pos 1)).at _ h;
  })
