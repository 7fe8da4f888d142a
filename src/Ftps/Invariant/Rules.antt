-- ===== src/Ftps/Invariant/Rules.antt =====
-- The rules for the actions that many commands share.
use ftps_qftp_server.Prelude.{ℕ, Bool, true, false, Option, none, some, if◌then◌else◌}
use ftps_qftp_server.Text.{Bytes}
use ftps_qftp_server.Ftps.State.{Socket, Session, M, Outcome, done, panic, ◌>>=◌}
use ftps_qftp_server.Ftps.Connection.{
  write_message, write_message_multiline, close_data_conn, close_if_open, close,
}
use ftps_qftp_server.Ftps.Invariant.{Invariant, Post}

-- An action keeps an invariant if every state in which it ends has it.
pub record Keeps {W A : Type 0} (I : Session W → Type 0) (m : M W A) : Type 0 where
  pub at : (s : Session W) → I s → Post I (m s)

module _ {W : Type 0} {I : Session W → Type 0} (inv : Invariant I) where
  pub write_message-Keeps : (code : ℕ) (message : Bytes) → Keeps I (write_message code message)
  unfolding write_message
  write_message-Keeps code message = record { at = λ s h. inv.quiet _ _ tt (inv.quiet _ _ tt h) }

  pub write_message_multiline-Keeps :
      (code : ℕ) (message : Bytes) → Keeps I (write_message_multiline code message)
  unfolding write_message_multiline
  write_message_multiline-Keeps code message = record {
    at = λ s h. inv.quiet _ _ tt (inv.quiet _ _ tt h);
  }

  pub close_data_conn-Keeps : (data_conn : Option Socket) → Keeps I (close_data_conn data_conn)
  unfolding close_data_conn
  close_data_conn-Keeps none = record { at = λ s h. h }
  close_data_conn-Keeps (some socket) = record { at = λ s h. inv.dropped _ (inv.quiet _ _ tt h) }

  pub close_if_open-Keeps : (data_conn : Option Socket) → Keeps I (close_if_open data_conn)
  unfolding close_if_open
  close_if_open-Keeps none = record { at = λ s h. h }
  close_if_open-Keeps (some socket) = close_data_conn-Keeps (some socket)

  pub close-Keeps : Keeps I close
  unfolding close
  close-Keeps = record {
    at = λ s h. (close_if_open-Keeps s.data_conn).at _ (inv.shut _ (inv.quiet _ _ tt h));
  }

module _ {W A : Type 0} {I : Session W → Type 0} where
  pub if-Keeps : (b : Bool) {m n : M W A} → Keeps I m → Keeps I n → Keeps I (if b then m else n)
  if-Keeps true hm hn = hm
  if-Keeps false hm hn = hn

  -- The continuation sees the value of the first action.
  pub bind-Keeps :
      {B : Type 0} {m : M W A} {f : A → M W B}
      → Keeps I m
      → ((a : A) → Keeps I (f a))
      → Keeps I (m >>= f)
  bind-Keeps {m = m} {f = f} hm hf = record { at = λ s h. after (m s) (hm.at s h) }
    where
      after :
          (o : Outcome W A)
          → Post I o
          → Post I (elim o [ done a s' ↦ f a s' | panic fault s' ↦ panic fault s' ])
      after (done a s') h = (hf a).at s' h
      after (panic fault s') h = h

pub Post-map :
    {W A : Type 0} {I J : Session W → Type 0}
    → ((s : Session W) → I s → J s)
    → (o : Outcome W A) → Post I o
    → Post J o
Post-map f (done a s) h = f s h
Post-map f (panic fault s) h = f s h
