-- ===== src/Ftpq/Fate.antt =====
-- How the count and the mutex of a session stand: `Conn` of ftpq/conn.go, and the rounds of `Conn.Serve`.
use mathlib.Core.Path.{subst}
use ftps_qftp_server.Prelude.{
  ◌∙◌, ℕ, suc, ◌+◌, ap, sym, ◌≡◌, refl, ◌⊎◌, inl, inr, Bool, true, false, Option, none, some, List,
  [], ◌∷◌, ◌++◌, Bool-cases, arith, if◌then◌else◌,
}
use ftps_qftp_server.Prelude.Int.{ℤ, pos, ◌+ℤ◌}
use ftps_qftp_server.Text.{codes, bytes_eq}
use ftps_qftp_server.Driver.{Result, ok, err}
use ftps_qftp_server.Ftpq.State.{StreamId, SubEvent}
use ftps_qftp_server.Ftpq.Server.{new_sub_conn}
use ftps_qftp_server.Ftpq.Session.{
  SessionEnv, Loop, accepting, held_up, returned, Progress, serving, over, stuck, if_over, Member,
  System, Round, aborted, started, held, new_member, abort, start, accept_control, accept_driver,
  accept_round,
}
use ftps_qftp_server.Ftpq.Quiet.{closings}
use ftps_qftp_server.Ftpq.Counting.{open_bit}

-- A sub-connection counts until its QUIT has come to its end: also one that waits for ever.
abbrev pub count_bit : Progress → Bool → ℕ
count_bit stuck closed = 1
count_bit serving closed = open_bit closed
count_bit over closed = open_bit closed

abbrev pub count_open : List Member → ℕ
count_open [] = 0
count_open (m ∷ members) = count_bit m.progress m.sub.closed + count_open members

-- Some sub-connection waits for ever.
abbrev pub HasStuck : List Member → Type 0
HasStuck [] = ⊥
HasStuck (m ∷ members) = (m.progress ≡ stuck) ⊎ HasStuck members

-- How often `Conn.Serve` itself has closed the session.
abbrev pub loop_bit : Loop → ℕ
loop_bit returned = 1
loop_bit accepting = 0
loop_bit held_up = 0

-- The mutex is free, and nobody waits for ever; or it is held for good, because the last sub-connection
-- has left and closed the session, or because some sub-connection waits for ever.
abbrev pub IsFate : Bool → ℕ → ℕ → List Member → Type 0
IsFate locked closes bit members =
    ((locked ≡ false) × ((closes ≡ bit) × (HasStuck members → ⊥)))
    ⊎ (((locked ≡ true) × ((closes ≡ suc bit) × (count_open members ≡ 0)))
        ⊎ ((locked ≡ true) × ((closes ≡ bit) × HasStuck members)))

pub record IsCounted {W : Type 0} (y : System W) : Type 0 where
  pub counted : y.shared.running_sub_conn ≡ pos (count_open y.members)
  pub fate : IsFate y.shared.locked (closings y.trace) (loop_bit y.loop) y.members

pub count_open-split :
    (before after : List Member) (m : Member)
    → count_open (before ++ m ∷ after)
      ≡ count_bit m.progress m.sub.closed + (count_open before + count_open after)
count_open-split [] after m = omega arith
count_open-split (k ∷ before) after m =
    let ih = count_open-split before after m in omega (arith, ih)

pub serving-ne : serving ≡ stuck → ⊥
serving-ne e = absurd cc

pub if_over-ne : (b : Bool) → if_over b ≡ stuck → ⊥
if_over-ne true e = absurd cc
if_over-ne false e = absurd cc

-- Where an entry is replaced that did not wait for ever.
pub HasStuck-replaced :
    (before after : List Member) (m k : Member)
    → (m.progress ≡ stuck → ⊥)
    → HasStuck (before ++ m ∷ after)
    → HasStuck (before ++ k ∷ after)
HasStuck-replaced [] after m k free (inl e) = absurd (free e)
HasStuck-replaced [] after m k free (inr h) = inr h
HasStuck-replaced (l ∷ before) after m k free (inl e) = inl e
HasStuck-replaced (l ∷ before) after m k free (inr h) =
    inr (HasStuck-replaced before after m k free h)

pub HasStuck-here :
    (before after : List Member) (m : Member) → m.progress ≡ stuck → HasStuck (before ++ m ∷ after)
HasStuck-here [] after m e = inl e
HasStuck-here (l ∷ before) after m e = inr (HasStuck-here before after m e)

pub still_counts :
    (n : ℕ) (p : Progress) (closed : Bool)
    → p ≡ serving
    → closed ≡ false
    → count_bit p closed + n ≡ suc n
still_counts n stuck closed e d = omega arith
still_counts n p true e d = absurd cc
still_counts n serving false e d = omega arith
still_counts n over false e d = omega arith

pub over_counts : (n : ℕ) (b closed : Bool) → count_bit (if_over b) closed + n ≡ open_bit closed + n
over_counts n true closed = refl
over_counts n false closed = refl

-- What a round of `Conn.Serve` owes.
abbrev pub IsRoundFair : {W : Type 0} → Round W → Type 0
IsRoundFair (aborted z) = IsCounted z
IsRoundFair (started none z) = Unit
IsRoundFair (started (some id) z) = IsCounted z
IsRoundFair (held z) = IsCounted z

one_more : (r : ℤ) (n : ℕ) → r ≡ pos n → r +ℤ pos 1 ≡ pos (suc n)
unfolding ◌+ℤ◌
one_more r n e = subst (λ k. k +ℤ pos 1 ≡ pos (suc n)) (sym e) (ground arith)

module _ {W : Type 0} (y : System W) (at_work : y.loop ≡ accepting) (h : IsCounted y) where
  one_more_time :
      (k : ℕ) {c : ℕ}
      → closings y.trace ≡ k + loop_bit y.loop
      → c ≡ closings y.trace
      → suc c ≡ k + 1
  one_more_time k closes e =
      let now = subst (λ l. closings y.trace ≡ k + loop_bit l) at_work closes in
      omega (arith, e, now)

  abort-IsFair :
      (line : SubEvent) → closings (line ∷ y.trace) ≡ closings y.trace → IsRoundFair (abort line y)
  unfolding abort
  abort-IsFair line e = record {
    counted = h.counted;
    fate = elim h.fate [
      | inl (free, (closes, none_stuck)) ↦
          inl (free, (one_more_time 0 (omega (arith, closes)) e, none_stuck))
      | inr (inl (taken, (closes, left))) ↦
          inr (inl (taken, (one_more_time 1 (omega (arith, closes)) e, left)))
      | inr (inr (taken, (closes, some_stuck))) ↦
          inr (inr (taken, (one_more_time 0 (omega (arith, closes)) e, some_stuck)))
    ];
  }

  free_fate :
      y.shared.locked ≡ false
      → (y.shared.locked ≡ false)
        × ((closings y.trace ≡ loop_bit y.loop) × (HasStuck y.members → ⊥))
  free_fate e = elim h.fate [
    | inl k ↦ k
    | inr (inl (taken, k)) ↦ absurd cc
    | inr (inr (taken, k)) ↦ absurd cc
  ]

  no_new_stuck :
      (m : Member)
      → (y.shared.locked ≡ false)
        × ((closings y.trace ≡ loop_bit y.loop) × (HasStuck y.members → ⊥))
      → m.progress ≡ serving
      → (y.shared.locked ≡ false)
        × ((closings y.trace ≡ loop_bit y.loop) × (HasStuck (m ∷ y.members) → ⊥))
  no_new_stuck m (free, (closes, none_stuck)) e =
      (free, (closes, λ h. elim h [ inl d ↦ serving-ne (sym e ∙ d) | inr k ↦ none_stuck k ]))

  by_lock :
      (b : Bool)
      → y.shared.locked ≡ b
      → (stream : Option StreamId)
      → IsRoundFair (
          if b
          then held (record y { loop = held_up })
          else started stream (record y {
            shared = record y.shared { running_sub_conn = y.shared.running_sub_conn +ℤ pos 1 };
            members = new_member y.shared stream ++ y.members;
          }))
  unfolding new_sub_conn
  by_lock true e stream = record {
    counted = h.counted;
    fate =
        subst (λ l. IsFate y.shared.locked (closings y.trace) l y.members) (ap loop_bit at_work)
          h.fate;
  }
  by_lock false e none = tt
  by_lock false e (some id) = record {
    counted =
        subst (λ k. y.shared.running_sub_conn +ℤ pos 1 ≡ pos k) (omega arith)
          (one_more _ (count_open y.members) h.counted);
    fate = inl (
        no_new_stuck (record { sub = new_sub_conn y.shared id; progress = serving }) (free_fate e)
          refl);
  }

  start-IsFair : (stream : Option StreamId) → IsRoundFair (start stream y)
  unfolding start new_sub_conn
  start-IsFair stream = by_lock y.shared.locked refl stream

  accept_control-IsFair : (r : Result StreamId) → IsRoundFair (accept_control r y)
  unfolding accept_control
  accept_control-IsFair (ok id) = start-IsFair (some id)
  accept_control-IsFair (err e) = elim (Bool-cases (bytes_eq e (codes "NO_ERROR"))) [
    | inl d ↦ rw d (start-IsFair none)
    | inr d ↦ rw d (abort-IsFair _ refl)
  ]

module _ {W : Type 0} (env : SessionEnv W) where
  accept_driver-IsFair :
      (r : Result (Unit {0})) (y : System W)
      → y.loop ≡ accepting
      → IsCounted y
      → IsRoundFair (accept_driver env r y)
  unfolding accept_driver
  accept_driver-IsFair (ok u) y w h =
      accept_control-IsFair (record y { world = (env.accept_stream y.world).1 }) w
        (record { counted = h.counted; fate = h.fate }) (env.accept_stream y.world).0
  accept_driver-IsFair (err e) y w h = abort-IsFair y w h _ refl

  pub accept_round-IsFair :
      (y : System W) → y.loop ≡ accepting → IsCounted y → IsRoundFair (accept_round env y)
  unfolding accept_round
  accept_round-IsFair y w h =
      accept_driver-IsFair (env.new_driver y.world).0
        (record y { world = (env.new_driver y.world).1 }) w
        (record { counted = h.counted; fate = h.fate })
