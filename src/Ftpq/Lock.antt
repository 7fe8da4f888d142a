-- ===== src/Ftpq/Lock.antt =====
-- What stands behind `structAccessMutex.Lock()`.
use ftps_qftp_server.Prelude.{◌∙◌, ◌≡◌, refl, Bool, true, false, if◌then◌else◌}
use ftps_qftp_server.Ftpq.State.{
  SubSession, SubOutcome, finished, crashed, blocked, Q, ◌>>◌, wait, pure,
}
use ftps_qftp_server.Ftpq.SubConn.{lock, with_lock}

module _ {W A : Type 0} (m : Q W A) (s : SubSession W) where
  free_lem : (b : Bool) → b ≡ false → (((if b then wait else pure tt) >> m) s) ≡ m s
  free_lem true e = cc
  free_lem false e = refl

  held_lem : (b : Bool) → b ≡ true → (((if b then wait else pure tt) >> m) s) ≡ blocked s
  held_lem true e = refl
  held_lem false e = cc

  pub lock_free : s.shared.locked ≡ false → (lock >> m) s ≡ m s
  unfolding lock
  lock_free e = free_lem s.shared.locked e

  pub lock_held : s.shared.locked ≡ true → (lock >> m) s ≡ blocked s
  unfolding lock
  lock_held e = held_lem s.shared.locked e

-- What the deferred `Unlock()` makes of an outcome.
abbrev pub unlocked : {W A : Type 0} → SubOutcome W A → SubOutcome W A
unlocked (finished a t) = finished a t
unlocked (crashed fault t) = crashed fault t
unlocked (blocked t) = blocked (record t { shared = record t.shared { locked = true } })

module _ {W A : Type 0} (m : Q W A) (s : SubSession W) where
  unlocked_lem :
      (o : SubOutcome W A)
      → (elim o [
        | finished a t ↦ finished a t
        | crashed fault t ↦ crashed fault t
        | blocked t ↦ blocked (record t { shared = record t.shared { locked = true } })
      ])
        ≡ unlocked o
  unlocked_lem (finished a t) = refl
  unlocked_lem (crashed fault t) = refl
  unlocked_lem (blocked t) = refl

  pub with_lock_free : s.shared.locked ≡ false → with_lock m s ≡ unlocked (m s)
  unfolding with_lock
  with_lock_free e = lock_free _ s e ∙ unlocked_lem (m s)

  pub with_lock_held : s.shared.locked ≡ true → with_lock m s ≡ blocked s
  unfolding with_lock
  with_lock_held e = lock_held _ s e
