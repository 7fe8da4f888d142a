-- ===== src/Ftpq/Ending.antt =====
-- When a session is closed: `Conn.Serve` and `Conn.ReportSubConnFinsihed` over all the steps of a session.
use mathlib.Core.Path.{subst}
use ftps_qftp_server.Prelude.{
  ◌∙◌, ◌<◌, suc, ◌+◌, sym, ◌≡◌, refl, inl, inr, Bool, true, false, List, ◌∷◌, ◌++◌, arith,
}
use ftps_qftp_server.Prelude.Int.{pos}
use ftps_qftp_server.Ftpq.State.{SubSession, SubOutcome, finished, crashed, blocked}
use ftps_qftp_server.Ftpq.Server.{new_conn}
use ftps_qftp_server.Ftpq.Session.{
  SessionEnv, Input, line_read, input_ended, serve_input, progress_behind, serving, stuck, if_over,
  Member, System, enter, leave, Step, accepts, aborts, waits, turns, stalls, opened, IsReached,
  at_start, behind,
}
use ftps_qftp_server.Ftpq.Quiet.{closings, tally}
use ftps_qftp_server.Ftpq.Counting.{Starts, Leaves, IsTurn}
use ftps_qftp_server.Ftpq.Rounds.{serve_input-IsTurn}
use ftps_qftp_server.Ftpq.Fate.{
  count_bit, count_open, HasStuck, loop_bit, IsCounted, count_open-split, serving-ne, if_over-ne,
  HasStuck-replaced, HasStuck-here, still_counts, over_counts, IsRoundFair, accept_round-IsFair,
}

module _ {W : Type 0} (env : SessionEnv W) where
  -- What a sub-connection that takes its turn finds.
  pub entered :
      (y : System W) (before after : List Member) (m : Member)
      → y.members ≡ before ++ m ∷ after
      → m.progress ≡ serving
      → m.sub.closed ≡ false
      → IsCounted y
      → Starts
          (count_open before + count_open after)
          (loop_bit y.loop)
          y.shared.locked
          (tally (enter y m.sub))
  entered y before after m e going unsaid h =
      let n = count_open before + count_open after in
      let split : count_open y.members ≡ count_bit m.progress m.sub.closed + n =
        subst (λ l. count_open l ≡ count_bit m.progress m.sub.closed + n) (sym e)
          (count_open-split before after m) in
      let same = split ∙ still_counts n m.progress m.sub.closed going unsaid in
      record {
        open_yet = unsaid;
        counted = subst (λ k. y.shared.running_sub_conn ≡ pos k) same h.counted;
        mutex = refl;
        closed_so_far = elim h.fate [
          | inl (free, (closes, none_stuck)) ↦ closes
          | inr (inl (taken, (closes, left))) ↦ absurd (omega (arith, same, left))
          | inr (inr (taken, (closes, some_stuck))) ↦ closes
        ];
      }

  -- What it leaves behind at the end of its turn.
  left_behind :
      (y : System W) (before after : List Member) (m : Member) (over_now : Bool) (t : SubSession W)
      → y.members ≡ before ++ m ∷ after
      → m.progress ≡ serving
      → 0 < count_open y.members
      → IsCounted y
      → Leaves (count_open before + count_open after) (loop_bit y.loop) y.shared.locked (tally t)
      → IsCounted (leave y before after (if_over over_now) t)
  left_behind y before after m over_now t e going some_left h l =
      let n = count_open before + count_open after in
      let k : Member = record { sub = t.sub; progress = if_over over_now } in
      let same = count_open-split before after k ∙ over_counts n over_now t.sub.closed in
      let replaced : HasStuck y.members → HasStuck (before ++ k ∷ after) = λ s.
        HasStuck-replaced before after m k (λ d. serving-ne (sym going ∙ d)) (subst HasStuck e s) in
      let put_back : HasStuck (before ++ k ∷ after) → HasStuck y.members =
        λ s. subst HasStuck (sym e) (HasStuck-replaced before after k m (if_over-ne over_now) s) in
      record {
        counted = subst (λ c. t.shared.running_sub_conn ≡ pos c) (sym same) l.counted;
        fate = elim l.fate [
          | inr (taken, (left, closes)) ↦ inr (inl (taken, (closes, same ∙ left)))
          | inl (lock, closes) ↦ elim h.fate [
            | inl (free, (_, none_stuck)) ↦
                inl (lock ∙ free, (closes, λ s. none_stuck (put_back s)))
            | inr (inl (taken, (_, left))) ↦ absurd (omega (arith, left, some_left))
            | inr (inr (taken, (_, some_stuck))) ↦
                inr (inr (lock ∙ taken, (closes, replaced some_stuck)))
          ]
        ];
      }

  -- What it leaves behind when it waits for ever.
  stuck_behind :
      (y : System W) (before after : List Member) (t : SubSession W)
      → (t.shared.locked ≡ true)
        × ((t.shared.running_sub_conn ≡ pos (suc (count_open before + count_open after)))
            × (closings t.trace ≡ loop_bit y.loop))
      → IsCounted (leave y before after stuck t)
  stuck_behind y before after t (taken, (running, closes)) =
      let k : Member = record { sub = t.sub; progress = stuck } in
      let split = count_open-split before after k in
      record {
        counted = subst (λ c. t.shared.running_sub_conn ≡ pos c) (omega (arith, split)) running;
        fate = inr (inr (taken, (closes, HasStuck-here before after k refl)));
      }

  -- What a turn comes to.
  abbrev IsTurnCounted : System W → List Member → List Member → Input → SubOutcome W Unit → Type 0
  IsTurnCounted y before after input (finished u t) =
      IsCounted (leave y before after (progress_behind input t.sub) t)
  IsTurnCounted y before after input (crashed fault t) = Unit
  IsTurnCounted y before after input (blocked t) = IsCounted (leave y before after stuck t)

  turn-IsTurnCounted :
      (y : System W) (before after : List Member) (m : Member) (input : Input)
      (o : SubOutcome W Unit)
      → y.members ≡ before ++ m ∷ after
      → m.progress ≡ serving
      → 0 < count_open y.members
      → IsCounted y
      → IsTurn (count_open before + count_open after) (loop_bit y.loop) y.shared.locked o
      → IsTurnCounted y before after input o
  turn-IsTurnCounted y before after m (line_read line) (finished u t) e going some_left h l =
      left_behind y before after m t.sub.closed t e going some_left h l
  turn-IsTurnCounted y before after m (input_ended x) (finished u t) e going some_left h l =
      left_behind y before after m true t e going some_left h l
  turn-IsTurnCounted y before after m input (crashed fault t) e going some_left h l = tt
  turn-IsTurnCounted y before after m input (blocked t) e going some_left h l =
      stuck_behind y before after t l

  input-IsTurnCounted :
      (y : System W) (before after : List Member) (m : Member) (input : Input)
      → y.members ≡ before ++ m ∷ after
      → m.progress ≡ serving
      → m.sub.closed ≡ false
      → IsCounted y
      → IsTurnCounted y before after input (serve_input env.quic input (enter y m.sub))
  input-IsTurnCounted y before after m input e going unsaid h =
      let n = count_open before + count_open after in
      let split : count_open y.members ≡ count_bit m.progress m.sub.closed + n =
        subst (λ l. count_open l ≡ count_bit m.progress m.sub.closed + n) (sym e)
          (count_open-split before after m) in
      let same = split ∙ still_counts n m.progress m.sub.closed going unsaid in
      turn-IsTurnCounted y before after m input _ e going (omega (arith, same)) h (
        serve_input-IsTurn n (loop_bit y.loop) y.shared.locked env.quic input (enter y m.sub)
          (entered y before after m e going unsaid h))

  Step-IsCounted : (y z : System W) → Step env y z → IsCounted y → IsCounted z
  Step-IsCounted y z (accepts _ _ id w e) h = subst IsRoundFair e (accept_round-IsFair env y w h)
  Step-IsCounted y z (aborts _ _ w e) h = subst IsRoundFair e (accept_round-IsFair env y w h)
  Step-IsCounted y z (waits _ _ w e) h = subst IsRoundFair e (accept_round-IsFair env y w h)
  Step-IsCounted y z (turns _ before after m input t e going unsaid r) h =
      subst (IsTurnCounted y before after input) r
        (input-IsTurnCounted y before after m input e going unsaid h)
  Step-IsCounted y z (stalls _ before after m input t e going unsaid r) h =
      subst (IsTurnCounted y before after input) r
        (input-IsTurnCounted y before after m input e going unsaid h)

  pub reached-IsCounted : (y : System W) → IsReached env y → IsCounted y
  unfolding opened new_conn
  reached-IsCounted y (at_start server local_addr session_id w) = record {
    counted = refl;
    fate = inl (refl, (refl, λ h. h));
  }
  reached-IsCounted y (behind x _ r step) = Step-IsCounted x y step (reached-IsCounted x r)
