-- ===== src/Ftpq/Abandoned.antt =====
-- Streams of a session that end without QUIT, or whose goroutine waits for ever: `SubConn.Serve` of
-- ftpq/subConn.go, and the count of `Conn.ReportSubConnFinsihed` of ftpq/conn.go.
use mathlib.Core.Path.{subst}
use ftps_qftp_server.Prelude.{
  ◌<◌, sym, ◌≡◌, refl, ◌⊎◌, inl, inr, Bool, true, false, Bool-cases, Option, none, some, List, [],
  ◌∷◌, ◌++◌, arith, if◌then◌else◌,
}
use ftps_qftp_server.Prelude.Int.{pos}
use ftps_qftp_server.Text.{codes, bytes_eq}
use ftps_qftp_server.Driver.{Result, ok, err}
use ftps_qftp_server.Ftpq.State.{StreamId}
use ftps_qftp_server.Ftpq.Session.{
  SessionEnv, Progress, serving, over, stuck, Member, System, Round, started, new_member, abort,
  start, accept_control, accept_driver, accept_round, Step, accepts, aborts, waits, turns, stalls,
  IsReached, behind, aborted, held,
}
use ftps_qftp_server.Ftpq.Quiet.{closings}
use ftps_qftp_server.Ftpq.Fate.{count_bit, count_open, loop_bit}
use ftps_qftp_server.Ftpq.Ending.{reached-IsCounted}

-- A sub-connection whose goroutine has ended without QUIT, or waits for ever.
abbrev pub HasAbandoned : List Member → Type 0
HasAbandoned [] = ⊥
HasAbandoned (m ∷ members) =
    (((m.progress ≡ over) × (m.sub.closed ≡ false)) ⊎ (m.progress ≡ stuck)) ⊎ HasAbandoned members

abandoned-bit :
    (p : Progress) (b : Bool) → ((p ≡ over) × (b ≡ false)) ⊎ (p ≡ stuck) → 0 < count_bit p b
abandoned-bit stuck b h = omega arith
abandoned-bit over false h = omega arith
abandoned-bit over true (inl (e, d)) = absurd cc
abandoned-bit over true (inr e) = absurd cc
abandoned-bit serving b (inl (e, d)) = absurd cc
abandoned-bit serving b (inr e) = absurd cc

abandoned-counts : (members : List Member) → HasAbandoned members → 0 < count_open members
abandoned-counts [] h = absurd h
abandoned-counts (m ∷ members) (inl h) =
    let one = abandoned-bit m.progress m.sub.closed h in omega (arith, one)
abandoned-counts (m ∷ members) (inr h) = let ih = abandoned-counts members h in omega (arith, ih)

-- The entry of a sub-connection that runs is no such one.
abandoned-stays :
    (before after : List Member) (m k : Member)
    → m.progress ≡ serving
    → HasAbandoned (before ++ m ∷ after)
    → HasAbandoned (before ++ k ∷ after)
abandoned-stays [] after m k going (inl (inl (gone, unsaid))) = absurd cc
abandoned-stays [] after m k going (inl (inr gone)) = absurd cc
abandoned-stays [] after m k going (inr h) = inr h
abandoned-stays (l ∷ before) after m k going (inl h) = inl h
abandoned-stays (l ∷ before) after m k going (inr h) =
    inr (abandoned-stays before after m k going h)

-- A round of `Conn.Serve` leaves the members as they are, but for one more.
abbrev KeepsAbandoned : {W : Type 0} → List Member → Round W → Type 0
KeepsAbandoned members (aborted z) = HasAbandoned members → HasAbandoned z.members
KeepsAbandoned members (started stream z) = HasAbandoned members → HasAbandoned z.members
KeepsAbandoned members (held z) = HasAbandoned members → HasAbandoned z.members

-- What comes behind a system.
pub data IsBehind {W : Type 0} (env : SessionEnv W) (y : System W) : System W → Type 0 where
  here : IsBehind env y y
  later : (x z : System W) → IsBehind env y x → Step env x z → IsBehind env y z

module _ {W : Type 0} (y : System W) where
  start-Keeps :
      (b : Bool) (stream : Option StreamId) (x z : System W)
      → x.members ≡ y.members
      → z.members ≡ new_member y.shared stream ++ y.members
      → KeepsAbandoned y.members (if b then held x else started stream z)
  start-Keeps true stream x z ex ez = λ h. subst HasAbandoned (sym ex) h
  start-Keeps false none x z ex ez = λ h. subst HasAbandoned (sym ez) h
  start-Keeps false (some id) x z ex ez = λ h. subst HasAbandoned (sym ez) (inr h)

  accept_control-Keeps : (r : Result StreamId) → KeepsAbandoned y.members (accept_control r y)
  unfolding accept_control start abort
  accept_control-Keeps (ok id) = start-Keeps y.shared.locked (some id) _ _ refl refl
  accept_control-Keeps (err e) = elim (Bool-cases (bytes_eq e (codes "NO_ERROR"))) [
    | inl d ↦ rw d (start-Keeps y.shared.locked none _ _ refl refl)
    | inr d ↦ rw d (λ h. h)
  ]

module _ {W : Type 0} (env : SessionEnv W) where
  accept_driver-Keeps :
      (r : Result (Unit {0})) (y : System W) → KeepsAbandoned y.members (accept_driver env r y)
  unfolding accept_driver abort
  accept_driver-Keeps (ok u) y =
      accept_control-Keeps (record y { world = (env.accept_stream y.world).1 })
        (env.accept_stream y.world).0
  accept_driver-Keeps (err e) y = λ h. h

  accept_round-Keeps : (y : System W) → KeepsAbandoned y.members (accept_round env y)
  unfolding accept_round
  accept_round-Keeps y =
      accept_driver-Keeps (env.new_driver y.world).0
        (record y { world = (env.new_driver y.world).1 })

  Step-HasAbandoned :
      (y z : System W) → Step env y z → HasAbandoned y.members → HasAbandoned z.members
  Step-HasAbandoned y z (accepts _ _ id w e) h =
      subst (KeepsAbandoned y.members) e (accept_round-Keeps y) h
  Step-HasAbandoned y z (aborts _ _ w e) h =
      subst (KeepsAbandoned y.members) e (accept_round-Keeps y) h
  Step-HasAbandoned y z (waits _ _ w e) h =
      subst (KeepsAbandoned y.members) e (accept_round-Keeps y) h
  Step-HasAbandoned y z (turns _ before after m input t e going unsaid r) h =
      abandoned-stays before after m _ going (subst HasAbandoned e h)
  Step-HasAbandoned y z (stalls _ before after m input t e going unsaid r) h =
      abandoned-stays before after m _ going (subst HasAbandoned e h)

  behind-HasAbandoned :
      (y z : System W) → HasAbandoned y.members → IsBehind env y z → HasAbandoned z.members
  behind-HasAbandoned y z h here = h
  behind-HasAbandoned y z h (later x _ b step) =
      Step-HasAbandoned x z step (behind-HasAbandoned y x h b)

  behind-IsReached : (y z : System W) → IsReached env y → IsBehind env y z → IsReached env z
  behind-IsReached y z r here = r
  behind-IsReached y z r (later x _ b step) = behind x z (behind-IsReached y x r b) step

  -- Once the goroutine of a sub-connection has ended without QUIT, as behind the end of its input, or
  -- waits for ever, the session is never closed by the count: in every later state the count is above
  -- zero, and only an error of `Conn.Serve` may have closed the session.
  pub abandoned_stream :
      (y z : System W)
      → IsReached env y
      → HasAbandoned y.members
      → IsBehind env y z
      → (z.shared.running_sub_conn ≡ pos (count_open z.members))
        × ((0 < count_open z.members) × (closings z.trace ≡ loop_bit z.loop))
  abandoned_stream y z r h b =
      let counted = reached-IsCounted env z (behind-IsReached y z r b) in
      let some_left = abandoned-counts z.members (behind-HasAbandoned y z h b) in
      (
        counted.counted,
        (
          some_left,
          elim counted.fate [
            | inl (free, (closes, none_stuck)) ↦ closes
            | inr (inl (taken, (closes, none_left))) ↦ absurd (omega (arith, none_left, some_left))
            | inr (inr (taken, (closes, some_stuck))) ↦ closes
          ],
        ),
      )
