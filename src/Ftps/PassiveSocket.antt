-- ===== src/Ftps/PassiveSocket.antt =====
-- ftps/socket.go: a passive socket behind `GoListenAndServe`, which its goroutine and its users share
-- under its lock.
use ftps_qftp_server.Prelude.{
  ℕ, ◌≡◌, refl, ◌⊎◌, inl, inr, Bool, true, false, Option, none, some, if◌then◌else◌,
}
use ftps_qftp_server.Prelude.Int.{ℤ}
use ftps_qftp_server.Text.{Bytes}
use ftps_qftp_server.Driver.{Result, ok, err, Reader}

-- The connection and the listener of Go's `net`; a connection is known by a number.
pub record DataNetwork (W : Type 0) : Type 0 where
  pub accept : W → Result ℕ × W
  pub read_conn : ℕ → ℕ → W → Result Bytes × W
  pub write_conn : ℕ → Bytes → W → Result ℤ × W
  pub copy_conn : ℕ → Reader → W → Result ℤ × W
  pub close_conn : ℕ → W → Result (Unit {0}) × W

-- `ftpPassiveSocket`: `accepting` says that the goroutine has the lock, `listening` that the listener is
-- open.
pub record PassiveSocket : Type 0 where
  pub conn : Option ℕ
  pub err : Option Bytes
  pub accepting : Bool
  pub listening : Bool

-- What a user of the socket gets: an answer, nothing until the lock is free, or a panic.
pub data Used (W A : Type 0) : Type 0 where
  used : Result A → W → Used W A
  waiting nil_conn : Used W A

-- The socket that `GoListenAndServe` leaves: the lock is taken before the goroutine starts.
abbrev pub fresh_socket : PassiveSocket
fresh_socket = record { conn = none; err = none; accepting = true; listening = true }

-- The goroutine behind its `Accept`.
unfoldable pub end_accept : Result ℕ → PassiveSocket → PassiveSocket
end_accept (err e) s = record s { err = some e; accepting = false }
end_accept (ok c) s = record { conn = some c; err = none; accepting = false; listening = false }

module _ {W A : Type 0} (f : ℕ → W → Result A × W) where
  -- A use of the connection behind the lock.
  unfoldable pub use_free : Option Bytes → Option ℕ → W → Used W A
  use_free (some e) conn w = used (err e) w
  use_free none none w = nil_conn
  use_free none (some c) w = used (f c w).0 (f c w).1

  unfoldable pub use_conn : PassiveSocket → W → Used W A
  unfolding use_free
  use_conn s w = if s.accepting then waiting else use_free s.err s.conn w

module _ {W : Type 0} (net : DataNetwork W) where
  -- `Read`, of so many bytes.
  unfoldable pub read : ℕ → PassiveSocket → W → Used W Bytes
  unfolding use_conn
  read n = use_conn (λ c w. net.read_conn c n w)

  -- `Write`.
  unfoldable pub write : Bytes → PassiveSocket → W → Used W ℤ
  unfolding use_conn
  write bytes = use_conn (λ c w. net.write_conn c bytes w)

  -- `ReadFrom`.
  unfoldable pub read_from : Reader → PassiveSocket → W → Used W ℤ
  unfolding use_conn
  read_from reader = use_conn (λ c w. net.copy_conn c reader w)

  -- `Close`, behind the lock.
  unfoldable pub close_free : Option ℕ → W → Used W (Unit {0})
  close_free none w = used (ok tt) w
  close_free (some c) w = used (net.close_conn c w).0 (net.close_conn c w).1

  unfoldable pub close : PassiveSocket → W → Used W (Unit {0})
  unfolding close_free
  close s w = if s.accepting then waiting else close_free s.conn w

  -- The sockets that come of a fresh one, with the world: the goroutine ends, a user is answered, or the
  -- world moves on.
  pub data IsReached : PassiveSocket → W → Type 0 where
    listens : (w : W) → IsReached fresh_socket w
    accepts :
        (s : PassiveSocket) (w : W)
        → IsReached s w
        → s.accepting ≡ true
        → IsReached (end_accept (net.accept w).0 s) (net.accept w).1
    reads :
        (s : PassiveSocket) (w v : W) (n : ℕ) (r : Result Bytes)
        → IsReached s w
        → read n s w ≡ used r v
        → IsReached s v
    writes :
        (s : PassiveSocket) (w v : W) (bytes : Bytes) (r : Result ℤ)
        → IsReached s w
        → write bytes s w ≡ used r v
        → IsReached s v
    copies :
        (s : PassiveSocket) (w v : W) (reader : Reader) (r : Result ℤ)
        → IsReached s w
        → read_from reader s w ≡ used r v
        → IsReached s v
    closes :
        (s : PassiveSocket) (w v : W) (r : Result (Unit {0}))
        → IsReached s w
        → close s w ≡ used r v
        → IsReached s v
    passes : (s : PassiveSocket) (w v : W) → IsReached s w → IsReached s v

-- The goroutine has the lock and has set nothing, or it has set one of the connection and the error, and
-- the listener is open behind an error.
abbrev pub IsSoundAt : Bool → Bool → Option ℕ → Option Bytes → Type 0
IsSoundAt accepting listening conn e =
    ((accepting ≡ true) × ((listening ≡ true) × ((conn ≡ none) × (e ≡ none))))
    ⊎ ((accepting ≡ false)
        × (((e ≡ none) × ((listening ≡ false) × ((c : ℕ) × (conn ≡ some c))))
            ⊎ ((conn ≡ none) × ((listening ≡ true) × ((text : Bytes) × (e ≡ some text))))))

abbrev pub IsSound : PassiveSocket → Type 0
IsSound s = IsSoundAt s.accepting s.listening s.conn s.err

-- A user waits as long as the goroutine has the lock, and is answered from then on.
abbrev pub IsAnswered : {W A : Type 0} → Bool → Used W A → Type 0
IsAnswered true waiting = Unit
IsAnswered true (used r w) = ⊥
IsAnswered true nil_conn = ⊥
IsAnswered false (used r w) = Unit
IsAnswered false waiting = ⊥
IsAnswered false nil_conn = ⊥

module _ {W A : Type 0} (f : ℕ → W → Result A × W) (w : W) where
  use-IsAnswered :
      (b l : Bool) (e : Option Bytes) (c : Option ℕ)
      → IsSoundAt b l c e
      → IsAnswered b (if b then waiting else use_free f e c w)
  unfolding use_free
  use-IsAnswered true l e c h = tt
  use-IsAnswered false l (some x) c h = tt
  use-IsAnswered false l none (some c) h = tt
  use-IsAnswered false l none none (inl (b, h)) = absurd cc
  use-IsAnswered false l none none (inr (b, inl (e, (off, (c, h))))) = absurd cc
  use-IsAnswered false l none none (inr (b, inr (e, (on, (x, h))))) = absurd cc

module _ {W : Type 0} (net : DataNetwork W) where
  close-IsAnswered :
      (b : Bool) (c : Option ℕ) (w : W) → IsAnswered b (if b then waiting else close_free net c w)
  unfolding close_free
  close-IsAnswered true c w = tt
  close-IsAnswered false none w = tt
  close-IsAnswered false (some c) w = tt

  end_accept-IsSound :
      (r : Result ℕ) (s : PassiveSocket)
      → s.listening ≡ true
      → s.conn ≡ none
      → IsSound (end_accept r s)
  unfolding end_accept
  end_accept-IsSound (ok c) s on empty = inr (refl, inl (refl, (refl, (c, refl))))
  end_accept-IsSound (err e) s on empty = inr (refl, inr (empty, (on, (e, refl))))

  pub reached-IsSound : (s : PassiveSocket) (w : W) → IsReached net s w → IsSound s
  reached-IsSound s w (listens _) = inl (refl, (refl, (refl, refl)))
  reached-IsSound _ _ (accepts s w r e) = elim (reached-IsSound s w r) [
    | inl (_, (on, (empty, _))) ↦ end_accept-IsSound (net.accept w).0 s on empty
    | inr (free, _) ↦ absurd cc
  ]
  reached-IsSound s v (reads _ w _ n a r e) = reached-IsSound s w r
  reached-IsSound s v (writes _ w _ bytes a r e) = reached-IsSound s w r
  reached-IsSound s v (copies _ w _ reader a r e) = reached-IsSound s w r
  reached-IsSound s v (closes _ w _ a r e) = reached-IsSound s w r
  reached-IsSound s v (passes _ w _ r) = reached-IsSound s w r

  -- A passive socket, however its goroutine and its users take turns: until the goroutine has accepted,
  -- its listener is open and Read, Write, ReadFrom and Close wait; from then on exactly one of the
  -- connection and the error is set, so that all four are answered and none of them uses a nil
  -- connection. The listener is closed behind a connection, and stays open behind an error.
  pub passive_socket-IsSound :
      (s : PassiveSocket) (w : W) (n : ℕ) (bytes : Bytes) (reader : Reader)
      → IsReached net s w
      → IsSound s
        × (IsAnswered s.accepting (read net n s w)
            × (IsAnswered s.accepting (write net bytes s w)
                × (IsAnswered s.accepting (read_from net reader s w)
                    × IsAnswered s.accepting (close net s w))))
  unfolding read write read_from use_conn close
  passive_socket-IsSound s w n bytes reader r =
      let sound = reached-IsSound s w r in
      (
        sound,
        (
          use-IsAnswered _ w s.accepting s.listening s.err s.conn sound,
          (
            use-IsAnswered _ w s.accepting s.listening s.err s.conn sound,
            (
              use-IsAnswered _ w s.accepting s.listening s.err s.conn sound,
              close-IsAnswered s.accepting s.conn w,
            ),
          ),
        ),
      )
