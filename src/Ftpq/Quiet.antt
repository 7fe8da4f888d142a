-- ===== src/Ftpq/Quiet.antt =====
-- What no command of a sub-connection but QUIT touches: the count of sub-connections, the mutex, the
-- flag that ends the loop, and the session itself.
pub mod Files
pub mod Transfer
use mathlib.Core.Path.{subst}
use ftps_qftp_server.Prelude.{
  ap, refl, ℕ, zero, suc, ◌≡◌, Bool, true, false, List, [], ◌∷◌, if◌then◌else◌,
}
use ftps_qftp_server.Prelude.Int.{ℤ}
use ftps_qftp_server.Text.{Bytes, codes}
use ftps_qftp_server.Ftpq.State.{
  SubEvent, session_closed, SubSession, SubOutcome, finished, crashed, blocked, Q, ◌>>=◌, wait,
  pure,
}
use ftps_qftp_server.Ftpq.SubConn.{write_message, write_message_multiline, lock, with_lock}
use ftps_qftp_server.Ftpq.View.{SubPost}

-- How often the session was closed.
abbrev pub closings : List SubEvent → ℕ
closings [] = zero
closings (session_closed ∷ trace) = suc (closings trace)
closings (e ∷ trace) = closings trace

-- Whether the loop of the sub-connection ends, the count, whether the mutex is held for good, and how
-- often the session was closed.
pub record Tally : Type 0 where
  pub shut : Bool
  pub running : ℤ
  pub held : Bool
  pub closes : ℕ

abbrev pub tally : {W : Type 0} → SubSession W → Tally
tally s = record {
  shut = s.sub.closed;
  running = s.shared.running_sub_conn;
  held = s.shared.locked;
  closes = closings s.trace;
}

-- The tally is the same where an action ends; where it waits for ever, the mutex is held besides.
abbrev pub QuietPost : {W A : Type 0} → Tally → SubOutcome W A → Type 0
QuietPost k (finished a t) = tally t ≡ k
QuietPost k (crashed fault t) = tally t ≡ k
QuietPost k (blocked t) = tally t ≡ record k { held = true }

pub record IsQuiet {W A : Type 0} (m : Q W A) : Type 0 where
  pub at : (k : Tally) (s : SubSession W) → tally s ≡ k → QuietPost k (m s)

-- Behind the lock an action leaves the tally alone wherever it ends or waits.
pub record IsCalm {W A : Type 0} (m : Q W A) : Type 0 where
  pub at : (k : Tally) (s : SubSession W) → tally s ≡ k → SubPost (λ t. tally t ≡ k) (m s)

module _ {W : Type 0} where
  pub defer-IsQuiet :
      (deferred : SubSession W → SubSession W)
      → ((k : Tally) (t : SubSession W) → tally t ≡ k → tally (deferred t) ≡ k)
      → (k : Tally) (o : SubOutcome W Unit) → QuietPost k o
      → QuietPost k (elim o [
        | finished a t ↦ finished a (deferred t)
        | crashed fault t ↦ crashed fault (deferred t)
        | blocked t ↦ blocked t
      ])
  defer-IsQuiet deferred hd k (finished a t) h = hd k t h
  defer-IsQuiet deferred hd k (crashed fault t) h = hd k t h
  defer-IsQuiet deferred hd k (blocked t) h = h

  pub if-IsQuiet :
      {A : Type 0} (b : Bool) {m n : Q W A} → IsQuiet m → IsQuiet n → IsQuiet (if b then m else n)
  if-IsQuiet true hm hn = hm
  if-IsQuiet false hm hn = hn

  after :
      {A B : Type 0} {f : A → Q W B}
      → ((a : A) → IsQuiet (f a))
      → (k : Tally) (o : SubOutcome W A) → QuietPost k o
      → QuietPost k (elim o [
        | finished a t ↦ f a t
        | crashed fault t ↦ crashed fault t
        | blocked t ↦ blocked t
      ])
  after hf k (finished a t) h = (hf a).at k t h
  after hf k (crashed fault t) h = h
  after hf k (blocked t) h = h

  pub bind-IsQuiet :
      {A B : Type 0} {m : Q W A} {f : A → Q W B}
      → IsQuiet m
      → ((a : A) → IsQuiet (f a))
      → IsQuiet (m >>= f)
  bind-IsQuiet {m = m} {f = f} hm hf = record {
    at = λ k s h. after {f = f} hf k (m s) (hm.at k s h);
  }

  lock-QuietPost :
      (s : SubSession W) (b : Bool)
      → s.shared.locked ≡ b
      → QuietPost (tally s) ((if b then wait else pure tt) s)
  lock-QuietPost s true e = ap (λ b. record (tally s) { held = b }) e
  lock-QuietPost s false e = refl

  pub lock-IsQuiet : IsQuiet (lock {W = W})
  unfolding lock
  lock-IsQuiet = record {
    at = λ k s h. subst (λ j. QuietPost j (lock s)) h (lock-QuietPost s s.shared.locked refl);
  }

  pub if-IsCalm :
      {A : Type 0} (b : Bool) {m n : Q W A} → IsCalm m → IsCalm n → IsCalm (if b then m else n)
  if-IsCalm true hm hn = hm
  if-IsCalm false hm hn = hn

  unlock-QuietPost :
      {A : Type 0} (k : Tally) (o : SubOutcome W A)
      → SubPost (λ t. tally t ≡ k) o
      → QuietPost k (elim o [
        | finished a t ↦ finished a t
        | crashed fault t ↦ crashed fault t
        | blocked t ↦ blocked (record t { shared = record t.shared { locked = true } })
      ])
  unlock-QuietPost k (finished a t) h = h
  unlock-QuietPost k (crashed fault t) h = h
  unlock-QuietPost k (blocked t) h = ap {A = Tally} (λ j. record j { held = true }) h

  -- What waits for ever behind the lock leaves the mutex held.
  pub with_lock-IsQuiet : {A : Type 0} {m : Q W A} → IsCalm m → IsQuiet (with_lock m)
  unfolding with_lock
  with_lock-IsQuiet {m = m} c =
      bind-IsQuiet lock-IsQuiet
        (λ _. record { at = λ k s h. unlock-QuietPost k (m s) (c.at k s h) })

  pub write_message-IsQuiet :
      (code : ℕ) (message : Bytes) → IsQuiet (write_message {W = W} code message)
  unfolding write_message
  write_message-IsQuiet code message = record { at = λ k s h. h }

  pub write_multiline-IsQuiet :
      (code : ℕ) (message : Bytes) → IsQuiet (write_message_multiline {W = W} code message)
  unfolding write_message_multiline
  write_multiline-IsQuiet code message = record { at = λ k s h. h }
