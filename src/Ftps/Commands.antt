-- ===== src/Ftps/Commands.antt =====
-- The table `commands` of ftps/cmd.go.
pub mod Control
pub mod Security
pub mod Files
pub mod Ports
pub mod Transfer
use ftps_qftp_server.Prelude.{Option, none, some, List, [], ◌∷◌, if◌then◌else◌}
use ftps_qftp_server.Text.{Bytes, codes, bytes_eq}
use ftps_qftp_server.Ftps.State.{Env, Command}
use ftps_qftp_server.Ftps.Commands.Control.{
  command_allo, command_feat, command_noop, command_pwd, command_quit, command_syst, command_user,
  command_opts, command_pass, command_mode, command_stru, command_type,
}
use ftps_qftp_server.Ftps.Commands.Security.{
  command_adat, command_ccc, command_enc, command_mic, command_conf, command_pbsz, command_prot,
  command_auth,
}
use ftps_qftp_server.Ftps.Commands.Files.{
  command_rnfr, command_cwd, command_cdup, command_dele, command_mkd, command_rmd, command_rnto,
  command_mdtm, command_size,
}
use ftps_qftp_server.Ftps.Commands.Ports.{command_eprt, command_epsv, command_pasv, command_port}
use ftps_qftp_server.Ftps.Commands.Transfer.{
  command_appe, command_rest, command_list, command_nlst, command_retr, command_stor,
}

-- `m[key]` on a map with distinct keys, written out as a list; `none` is the nil of a missing key.
unfoldable pub lookup_command : {W : Type 0} → Bytes → List (Bytes × Command W) → Option (Command W)
unfolding bytes_eq
lookup_command key [] = none
lookup_command key ((name, command) ∷ rest) =
    if bytes_eq name key then some command else lookup_command key rest

unfoldable pub commands : {W : Type 0} → Env W → List (Bytes × Command W)
unfolding codes command_adat command_allo command_appe command_auth command_ccc command_cdup
    command_conf command_cwd command_dele command_enc command_eprt command_epsv command_feat
    command_list command_mdtm command_mic command_mkd command_mode command_nlst command_noop
    command_opts command_pass command_pasv command_pbsz command_port command_prot command_pwd
    command_quit command_rest command_retr command_rmd command_rnfr command_rnto command_size
    command_stor command_stru command_syst command_type command_user
commands env =
    (codes "ADAT", command_adat)
    ∷ (codes "ALLO", command_allo)
    ∷ (codes "APPE", command_appe)
    ∷ (codes "AUTH", command_auth env)
    ∷ (codes "CDUP", command_cdup env)
    ∷ (codes "CWD", command_cwd env)
    ∷ (codes "CCC", command_ccc)
    ∷ (codes "CONF", command_conf)
    ∷ (codes "DELE", command_dele env)
    ∷ (codes "ENC", command_enc)
    ∷ (codes "EPRT", command_eprt env)
    ∷ (codes "EPSV", command_epsv env)
    ∷ (codes "FEAT", command_feat)
    ∷ (codes "LIST", command_list env)
    ∷ (codes "NLST", command_nlst env)
    ∷ (codes "MDTM", command_mdtm env)
    ∷ (codes "MIC", command_mic)
    ∷ (codes "MKD", command_mkd env)
    ∷ (codes "MODE", command_mode env)
    ∷ (codes "NOOP", command_noop)
    ∷ (codes "OPTS", command_opts env)
    ∷ (codes "PASS", command_pass env)
    ∷ (codes "PASV", command_pasv env)
    ∷ (codes "PBSZ", command_pbsz)
    ∷ (codes "PORT", command_port env)
    ∷ (codes "PROT", command_prot)
    ∷ (codes "PWD", command_pwd)
    ∷ (codes "QUIT", command_quit)
    ∷ (codes "RETR", command_retr env)
    ∷ (codes "REST", command_rest)
    ∷ (codes "RNFR", command_rnfr)
    ∷ (codes "RNTO", command_rnto env)
    ∷ (codes "RMD", command_rmd env)
    ∷ (codes "SIZE", command_size env)
    ∷ (codes "STOR", command_stor env)
    ∷ (codes "STRU", command_stru env)
    ∷ (codes "SYST", command_syst)
    ∷ (codes "TYPE", command_type env)
    ∷ (codes "USER", command_user)
    ∷ (codes "XCUP", command_cdup env)
    ∷ (codes "XCWD", command_cwd env)
    ∷ (codes "XPWD", command_pwd)
    ∷ (codes "XRMD", command_rmd env)
    ∷ []
