-- ===== src/Ftpq/Replies.antt =====
-- `Conn.getReceiveDataStream` of ftpq/conn.go writes no reply, and keeps the mutex where it waits.
use mathlib.Core.Path.{subst}
use ftps_qftp_server.Prelude.{
  ℕ, zero, suc, ◌≡◌, refl, sym, true, List, [], ◌∷◌, ◌==◌, ltb, Bool-cases, inl, inr,
}
use ftps_qftp_server.Driver.{Result}
use ftps_qftp_server.Ftps.State.{Reply}
use ftps_qftp_server.Ftpq.State.{
  StreamId, SubEvent, wrote_reply, QuicEnv, SubSession, SubOutcome, finished, crashed, blocked, Q,
}
use ftps_qftp_server.Ftpq.Lock.{unlocked, with_lock_free, with_lock_held}
use ftps_qftp_server.Ftpq.Streams.{Awaited-cases, behind_accept}
use ftps_qftp_server.Ftpq.SubConn.{
  has_stream, check_accepted, end_accept, accept_until, get_receive_data_stream, find_stream,
}

-- The replies of a trace, the last one first.
abbrev pub replies : List SubEvent → List Reply
replies [] = []
replies (wrote_reply r ∷ trace) = r ∷ replies trace
replies (e ∷ trace) = replies trace

-- The replies are the given ones, and there is no panic.
abbrev KeepsReplies : {W A : Type 0} → List Reply → SubOutcome W A → Type 0
KeepsReplies rs (finished a t) = replies t.trace ≡ rs
KeepsReplies rs (crashed fault t) = ⊥
KeepsReplies rs (blocked t) = replies t.trace ≡ rs

-- The same, and what waits holds the mutex or waits for it.
abbrev pub WaitsSilently : {W A : Type 0} → List Reply → SubOutcome W A → Type 0
WaitsSilently rs (finished a t) = replies t.trace ≡ rs
WaitsSilently rs (crashed fault t) = ⊥
WaitsSilently rs (blocked t) = (t.shared.locked ≡ true) × (replies t.trace ≡ rs)

module _ {W : Type 0} (env : QuicEnv W) (rs : List Reply) where
  check-KeepsReplies :
      (again : Q W (Result StreamId)) (wanted id : StreamId) (s : SubSession W)
      → KeepsReplies rs (again s)
      → replies s.trace ≡ rs
      → KeepsReplies rs (check_accepted again wanted id s)
  unfolding check_accepted
  check-KeepsReplies again wanted id s ha h = elim (Bool-cases (ltb wanted id)) [
    | inl e ↦ rw e h
    | inr e ↦ elim (Bool-cases (id == wanted)) [ inl d ↦ rw (e, d) h | inr d ↦ rw (e, d) ha ]
  ]

  rounds-KeepsReplies :
      (fuel : ℕ) (wanted : StreamId) (s : SubSession W)
      → replies s.trace ≡ rs
      → KeepsReplies rs (accept_until env fuel wanted s)
  unfolding accept_until end_accept
  rounds-KeepsReplies zero wanted s h = h
  rounds-KeepsReplies (suc fuel) wanted s h =
      elim (Awaited-cases (env.accept_uni_stream s.world).0) [
        | inl (id, e) ↦
            let t = behind_accept s id (env.accept_uni_stream s.world).1 in
            rw e (
              check-KeepsReplies (accept_until env fuel wanted) wanted id t
                (rounds-KeepsReplies fuel wanted t h) h)
        | inr (inl (t, e)) ↦ rw e h
        | inr (inr e) ↦ rw e h
      ]

  unlocked-WaitsSilently :
      (o : SubOutcome W (Result StreamId)) → KeepsReplies rs o → WaitsSilently rs (unlocked o)
  unlocked-WaitsSilently (finished a t) h = h
  unlocked-WaitsSilently (crashed fault t) h = h
  unlocked-WaitsSilently (blocked t) h = (refl, h)

  pub get_receive-WaitsSilently :
      (wanted : StreamId) (s : SubSession W)
      → replies s.trace ≡ rs
      → WaitsSilently rs (get_receive_data_stream env wanted s)
  unfolding get_receive_data_stream find_stream
  get_receive-WaitsSilently wanted s h = elim (Bool-cases s.shared.locked) [
    | inl e ↦ subst (WaitsSilently rs) (sym (with_lock_held (find_stream env wanted) s e)) (e, h)
    | inr e ↦ subst (WaitsSilently rs) (sym (with_lock_free (find_stream env wanted) s e)) (
        unlocked-WaitsSilently (find_stream env wanted s)
          (elim (Bool-cases (has_stream wanted s.shared.data_receive_streams)) [
            | inl d ↦ rw d h
            | inr d ↦ rw d (rounds-KeepsReplies (suc wanted) wanted s h)
          ]))
  ]
