-- ===== src/Ftps/Invariant/Security.antt =====
-- The commands of Commands/Security keep every invariant of a connection.
use ftps_qftp_server.Prelude.{
  ◌≡◌, refl, [], inl, inr, Bool, true, false, ◌&&◌, Option, none, some, Bool-cases, arith,
}
use ftps_qftp_server.Prelude.Int.{pos, ltb_ℤ}
use ftps_qftp_server.Text.{Bytes, codes, bytes_eq}
use ftps_qftp_server.Driver.{Result-cases}
use ftps_qftp_server.Ftps.State.{Env, Session, print_event, printf_event, pure, emit}
use ftps_qftp_server.Ftps.Commands.Security.{
  not_taken, answer_pbsz, execute_pbsz, answer_prot, execute_prot, accept_auth, execute_auth,
  has_config,
}
use ftps_qftp_server.Ftps.Connection.{upgrade_to_tls}
use ftps_qftp_server.Ftps.Invariant.{Invariant, Post}
use ftps_qftp_server.Ftps.Invariant.Rules.{Keeps, write_message-Keeps, if-Keeps, bind-Keeps}

module _ {W : Type 0} {I : Session W → Type 0} (inv : Invariant I) where
  pub not_taken-Keeps : (param : Bytes) → Keeps I (not_taken param)
  unfolding not_taken
  not_taken-Keeps param = write_message-Keeps inv _ _

  pub pbsz-Keeps : (param : Bytes) → Keeps I (execute_pbsz param)
  unfolding execute_pbsz
  pbsz-Keeps param = record { at = λ s h. answered s.tls s refl h }
    where
      answered : (b : Bool) (s : Session W) → s.tls ≡ b → I s → Post I (answer_pbsz b param s)
      answered false s e h = (write_message-Keeps inv _ _).at s h
      answered true s e h = elim (Bool-cases (bytes_eq param (codes "0"))) [
        | inl z ↦ rw z ((write_message-Keeps inv _ _).at _ (inv.sized s e h))
        | inr z ↦ rw z ((write_message-Keeps inv _ _).at s h)
      ]

  -- PROT has tested the size of the buffer before it looks at the connection.
  prot_known-Keeps :
      (b : Bool) (param : Bytes) (s : Session W)
      → s.tls ≡ b
      → ltb_ℤ s.protocol_buffer_size (pos 0) ≡ false
      → I s
      → Post I (answer_prot s.protocol_buffer_size b param s)
  unfolding answer_prot
  prot_known-Keeps false param s e n h = rw n ((write_message-Keeps inv _ _).at s h)
  prot_known-Keeps true param s e n h = elim (Bool-cases (bytes_eq param (codes "P"))) [
    | inl z ↦ rw (n, z) ((write_message-Keeps inv _ _).at _ (inv.protected s e (ground arith) h))
    | inr z ↦ rw (n, z) ((write_message-Keeps inv _ _).at s h)
  ]

  pub prot-Keeps : (param : Bytes) → Keeps I (execute_prot param)
  unfolding execute_prot
  prot-Keeps param = record { at = answered }
    where
      answered : (s : Session W) → I s → Post I (execute_prot param s)
      answered s h = elim (Bool-cases (ltb_ℤ s.protocol_buffer_size (pos 0))) [
        | inl n ↦ rw n ((write_message-Keeps inv _ _).at s h)
        | inr n ↦ prot_known-Keeps s.tls param s refl n h
      ]

module _ {W : Type 0} {I : Session W → Type 0} (inv : Invariant I) (env : Env W) where
  upgrade-Keeps : Keeps I (upgrade_to_tls env)
  unfolding upgrade_to_tls
  upgrade-Keeps = record { at = answered }
    where
      answered : (s : Session W) → I s → Post I (upgrade_to_tls env s)
      answered s h =
          let r = env.handshake s.world in
          let h' =
            inv.moved _ r.1 (
              inv.quiet s (print_event s.session_id (codes "Upgrading connectiion to TLS")) tt h) in
          elim (Result-cases r.0) [ inl (u, e) ↦ rw e (inv.secured _ h') | inr (t, e) ↦ rw e h' ]

  accept_auth-Keeps : Keeps I (accept_auth env)
  unfolding accept_auth
  accept_auth-Keeps =
      bind-Keeps (write_message-Keeps inv _ _) (λ _. bind-Keeps upgrade-Keeps logged)
    where
      logged :
          (failed : Option Bytes)
          → Keeps I (elim failed [
            | none ↦ pure tt
            | some e ↦ emit (printf_event (codes "Error upgrading connection to TLS %v") e [])
          ])
      logged none = record { at = λ s h. h }
      logged (some e) = record { at = λ s h. inv.quiet _ _ tt h }

  pub auth-Keeps : (param : Bytes) → Keeps I (execute_auth env param)
  unfolding execute_auth
  auth-Keeps param = record {
    at = λ s h.
        (if-Keeps (bytes_eq param (codes "TLS") && has_config s.tls_config) accept_auth-Keeps
            (write_message-Keeps inv _ _)).at
          s h;
  }
