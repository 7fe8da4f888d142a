-- ===== src/Ftpq/Streams.antt =====
-- `Conn.getReceiveDataStream` of ftpq/conn.go: what it finds, and what it leaves where it waits for ever.
use mathlib.Core.Path.{subst}
use ftps_qftp_server.Text.{Bytes}
use ftps_qftp_server.Prelude.{
  Bool, ap, ◌⊎◌, ℕ, zero, suc, ◌+◌, ◌≤◌, ◌<◌, ◌≡◌, refl, sym, true, false, List, ◌∷◌, ◌==◌, ltb,
  Bool-cases, inl, inr, arith,
}
use ftps_qftp_server.Driver.{Result, ok, err}
use ftps_qftp_server.Ftpq.State.{
  StreamId, stream_accepted, Awaited, answered, never_answered, QuicEnv, SubSession, SubOutcome,
  finished, crashed, blocked, Q,
}
use ftps_qftp_server.Ftpq.Lock.{unlocked, with_lock_free}
use ftps_qftp_server.Ftpq.SubConn.{
  has_stream, add_stream, check_accepted, end_accept, accept_until, get_receive_data_stream,
  find_stream,
}

-- `AcceptUniStream` was called, and never answered: the client opens no stream any more.
abbrev pub WaitsForStream : {W : Type 0} → QuicEnv W → SubSession W → Type 0
WaitsForStream {W} env t = (w : W) × (env.accept_uni_stream w ≡ (never_answered, t.world))

-- The call returns: with the wanted stream, which the session knows from then on, or with an error. Or
-- `AcceptUniStream` never answers, with the mutex as given.
abbrev pub IsFound :
    {W : Type 0} → QuicEnv W → Bool → StreamId → SubOutcome W (Result StreamId) → Type 0
IsFound env kept wanted (finished (ok id) t) =
    (id ≡ wanted) × (has_stream wanted t.shared.data_receive_streams ≡ true)
IsFound env kept wanted (finished (err e) t) = Unit
IsFound env kept wanted (crashed fault t) = ⊥
IsFound env kept wanted (blocked t) = (t.shared.locked ≡ kept) × WaitsForStream env t

pub Awaited-cases :
    {A : Type 0} (r : Awaited A)
    → ((a : A) × (r ≡ answered (ok a)))
      ⊎ (((e : Bytes) × (r ≡ answered (err e))) ⊎ (r ≡ never_answered))
Awaited-cases (answered (ok a)) = inl (a, refl)
Awaited-cases (answered (err e)) = inr (inl (e, refl))
Awaited-cases never_answered = inr (inr refl)

has-add_self :
    (id : StreamId) (streams : List StreamId) → has_stream id (add_stream id streams) ≡ true
unfolding add_stream has_stream
has-add_self id streams = ground arith

-- The state behind a round that accepted a stream.
abbrev pub behind_accept : {W : Type 0} → SubSession W → StreamId → W → SubSession W
behind_accept s id w = record s {
  world = w;
  trace = stream_accepted id ∷ s.trace;
  shared = record s.shared { data_receive_streams = add_stream id s.shared.data_receive_streams };
}

module _ {W : Type 0} (env : QuicEnv W) where
  check-IsFound :
      (again : Q W (Result StreamId)) (wanted id : StreamId) (s : SubSession W)
      → has_stream id s.shared.data_receive_streams ≡ true
      → (id < wanted → IsFound env false wanted (again s))
      → IsFound env false wanted (check_accepted again wanted id s)
  unfolding check_accepted
  check-IsFound again wanted id s h k = elim (Bool-cases (ltb wanted id)) [
    | inl e ↦ rw e tt
    | inr e ↦ elim (Bool-cases (id == wanted)) [
      | inl d ↦
          let same : id ≡ wanted = ground arith in
          rw (e, d) (same, subst (λ n. has_stream n s.shared.data_receive_streams ≡ true) same h)
      | inr d ↦ rw (e, d) (k (ground arith))
    ]
  ]

  unlocked-IsFound :
      (wanted : StreamId) (o : SubOutcome W (Result StreamId))
      → IsFound env false wanted o
      → IsFound env true wanted (unlocked o)
  unlocked-IsFound wanted (finished (ok id) t) h = h
  unlocked-IsFound wanted (finished (err e) t) h = tt
  unlocked-IsFound wanted (crashed fault t) h = h
  unlocked-IsFound wanted (blocked t) (free, h) = (refl, h)

module _ {W : Type 0} (env : QuicEnv W) (floor : W → ℕ) where
  rounds-IsFound :
      ((w : W) (id : StreamId)
        → (env.accept_uni_stream w).0 ≡ answered (ok id)
        → (floor w ≤ id) × (id < floor (env.accept_uni_stream w).1))
      → (fuel : ℕ) (wanted : StreamId) (s : SubSession W) → s.shared.locked ≡ false
      → 0 < fuel
      → wanted < fuel + floor s.world
      → IsFound env false wanted (accept_until env fuel wanted s)
  unfolding accept_until end_accept
  rounds-IsFound o zero wanted s free p h = absurd (omega arith)
  rounds-IsFound o (suc fuel) wanted s free p h =
      elim (Awaited-cases (env.accept_uni_stream s.world).0) [
        | inl (id, e) ↦
            let (low, high) = o s.world id e in
            let t = behind_accept s id (env.accept_uni_stream s.world).1 in
            rw e (
              check-IsFound env (accept_until env fuel wanted) wanted id t
                (has-add_self id s.shared.data_receive_streams)
                (λ less. rounds-IsFound o fuel wanted t free (omega arith) (omega arith)))
        | inr (inl (x, e)) ↦ rw e tt
        | inr (inr e) ↦ rw e (free, (s.world, ap (λ r. (r, (env.accept_uni_stream s.world).1)) e))
      ]

  -- Where the streams of the session are accepted in the order of their numbers, the loop of
  -- `getReceiveDataStream` has at most one round for each number up to the wanted one: called with the
  -- mutex free it returns, with the wanted stream, which is in the map of the session from then on, or
  -- with an error, unless a call of AcceptUniStream never returns; the mutex then stays held.
  pub receive_stream-IsFound :
      ((w : W) (id : StreamId)
        → (env.accept_uni_stream w).0 ≡ answered (ok id)
        → (floor w ≤ id) × (id < floor (env.accept_uni_stream w).1))
      → (wanted : StreamId) (s : SubSession W) → s.shared.locked ≡ false
      → IsFound env true wanted (get_receive_data_stream env wanted s)
  unfolding get_receive_data_stream find_stream
  receive_stream-IsFound o wanted s free =
      subst (IsFound env true wanted) (sym (with_lock_free (find_stream env wanted) s free)) (
        unlocked-IsFound env wanted (find_stream env wanted s)
          (elim (Bool-cases (has_stream wanted s.shared.data_receive_streams)) [
            | inl e ↦ rw e (refl, e)
            | inr e ↦ rw e (rounds-IsFound o (suc wanted) wanted s free (omega arith) (omega arith))
          ]))

-- Every stream that the session knew is known.
abbrev pub KeepsStream : {W A : Type 0} → StreamId → SubOutcome W A → Type 0
KeepsStream k (finished a t) = has_stream k t.shared.data_receive_streams ≡ true
KeepsStream k (crashed fault t) = has_stream k t.shared.data_receive_streams ≡ true
KeepsStream k (blocked t) = has_stream k t.shared.data_receive_streams ≡ true
