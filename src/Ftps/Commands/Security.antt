-- ===== src/Ftps/Commands/Security.antt =====
-- ftps/cmd.go: the commands of RFC 2228 and RFC 4217.
use ftps_qftp_server.Prelude.{Bool, true, false, Option, none, some, [], ◌&&◌, if◌then◌else◌}
use ftps_qftp_server.Prelude.Int.{ℤ, pos, ltb_ℤ}
use ftps_qftp_server.Text.{Bytes, codes, bytes_eq}
use ftps_qftp_server.Ftps.State.{
  data_connection_protected, TlsConfig, printf_event, Env, M, ◌>>=◌, ◌>>◌, pure, gets, modify, emit,
  Command,
}
use ftps_qftp_server.Ftps.Connection.{write_message, upgrade_to_tls}

module _ {W : Type 0} where
  -- The answer of ADAT, CCC, CONF, ENC and MIC.
  unfoldable pub not_taken : Bytes → M W Unit
  unfolding write_message codes
  not_taken param = write_message 550 (codes "Action not taken")

  unfoldable pub command_adat : Command W
  command_adat = record {
    is_extend = false;
    require_param = true;
    require_auth = true;
    execute = not_taken;
  }

  unfoldable pub command_ccc : Command W
  command_ccc = record {
    is_extend = false;
    require_param = true;
    require_auth = true;
    execute = not_taken;
  }

  unfoldable pub command_enc : Command W
  command_enc = record {
    is_extend = false;
    require_param = true;
    require_auth = true;
    execute = not_taken;
  }

  unfoldable pub command_mic : Command W
  command_mic = record {
    is_extend = false;
    require_param = true;
    require_auth = true;
    execute = not_taken;
  }

  unfoldable pub command_conf : Command W
  command_conf = record {
    is_extend = false;
    require_param = true;
    require_auth = true;
    execute = not_taken;
  }

  unfoldable pub accept_pbsz : M W Unit
  unfolding write_message codes
  accept_pbsz = do
    modify (λ c. record c { protocol_buffer_size = pos 0 })
    write_message 200 (codes "OK")

  unfoldable pub answer_pbsz : Bool → Bytes → M W Unit
  unfolding accept_pbsz write_message codes bytes_eq
  answer_pbsz tls param =
      if tls && bytes_eq param (codes "0")
      then accept_pbsz
      else write_message 550 (codes "Action not taken")

  unfoldable pub execute_pbsz : Bytes → M W Unit
  unfolding answer_pbsz
  execute_pbsz param = do tls ← gets (λ c. c.tls); answer_pbsz tls param

  unfoldable pub command_pbsz : Command W
  command_pbsz = record {
    is_extend = false;
    require_param = true;
    require_auth = false;
    execute = execute_pbsz;
  }

  unfoldable pub accept_prot : M W Unit
  unfolding write_message codes
  accept_prot = do
    modify (λ c. record c { data_connection_protection = data_connection_protected })
    write_message 200 (codes "OK")

  unfoldable pub answer_prot : ℤ → Bool → Bytes → M W Unit
  unfolding accept_prot write_message codes bytes_eq
  answer_prot size tls param =
      if ltb_ℤ size (pos 0)
      then write_message 503 (codes "Need protocol buffer size")
      else if tls && bytes_eq param (codes "P")
      then accept_prot
      else if tls
      then write_message 536 (codes "Only P level is supported")
      else write_message 550 (codes "Action not taken")

  unfoldable pub execute_prot : Bytes → M W Unit
  unfolding answer_prot
  execute_prot param = do
    size ← gets (λ c. c.protocol_buffer_size)
    tls ← gets (λ c. c.tls)
    answer_prot size tls param

  unfoldable pub command_prot : Command W
  command_prot = record {
    is_extend = false;
    require_param = true;
    require_auth = false;
    execute = execute_prot;
  }

unfoldable pub has_config : Option TlsConfig → Bool
has_config none = false
has_config (some config) = true

module _ {W : Type 0} (env : Env W) where
  -- The texts stand at the places where the code puts them: the message where `Printf` has the
  -- session, and the error where it has the format.
  unfoldable pub accept_auth : M W Unit
  unfolding write_message codes upgrade_to_tls
  accept_auth = do
    write_message 234 (codes "AUTH command OK")
    failed ← upgrade_to_tls env
    elim failed [
      | none ↦ pure tt
      | some e ↦ emit (printf_event (codes "Error upgrading connection to TLS %v") e [])
    ]

  unfoldable pub answer_auth : Option TlsConfig → Bytes → M W Unit
  unfolding accept_auth write_message codes bytes_eq has_config
  answer_auth config param =
      if bytes_eq param (codes "TLS") && has_config config
      then accept_auth
      else write_message 550 (codes "Action not taken")

  unfoldable pub execute_auth : Bytes → M W Unit
  unfolding answer_auth
  execute_auth param = do config ← gets (λ c. c.tls_config); answer_auth config param

  unfoldable pub command_auth : Command W
  command_auth = record {
    is_extend = false;
    require_param = true;
    require_auth = false;
    execute = execute_auth;
  }
