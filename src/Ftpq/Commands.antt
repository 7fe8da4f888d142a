-- ===== src/Ftpq/Commands.antt =====
-- The table `commands` of ftpq/cmd.go.
pub mod Control
pub mod Files
pub mod Transfer
use ftps_qftp_server.Prelude.{Option, none, some, List, [], ◌∷◌, if◌then◌else◌}
use ftps_qftp_server.Text.{Bytes, codes, bytes_eq}
use ftps_qftp_server.Ftpq.State.{QuicEnv, SubCommand}
use ftps_qftp_server.Ftpq.Commands.Control.{
  command_allo, command_feat, command_hello, command_noop, command_pwd, command_quit, command_syst,
  command_user, command_opts, command_pass, command_mode, command_stru, command_type,
}
use ftps_qftp_server.Ftpq.Commands.Files.{
  command_rnfr, command_cwd, command_cdup, command_dele, command_mkd, command_rmd, command_rnto,
  command_mdtm, command_size,
}
use ftps_qftp_server.Ftpq.Commands.Transfer.{
  command_appe, command_rest, command_list, command_nlst, command_retr, command_stor,
}

unfoldable pub lookup_command :
    {W : Type 0} → Bytes → List (Bytes × SubCommand W) → Option (SubCommand W)
unfolding bytes_eq
lookup_command key [] = none
lookup_command key ((name, command) ∷ rest) =
    if bytes_eq name key then some command else lookup_command key rest

unfoldable pub commands : {W : Type 0} → QuicEnv W → List (Bytes × SubCommand W)
unfolding codes command_allo command_appe command_cdup command_cwd command_dele command_feat
    command_hello command_list command_mdtm command_mkd command_mode command_nlst command_noop
    command_opts command_pass command_pwd command_quit command_rest command_retr command_rmd
    command_rnfr command_rnto command_size command_stor command_stru command_syst command_type
    command_user
commands env =
    (codes "ALLO", command_allo)
    ∷ (codes "APPE", command_appe)
    ∷ (codes "CDUP", command_cdup env)
    ∷ (codes "CWD", command_cwd env)
    ∷ (codes "DELE", command_dele env)
    ∷ (codes "FEAT", command_feat)
    ∷ (codes "HELLO", command_hello)
    ∷ (codes "LIST", command_list env)
    ∷ (codes "NLST", command_nlst env)
    ∷ (codes "MDTM", command_mdtm env)
    ∷ (codes "MKD", command_mkd env)
    ∷ (codes "MODE", command_mode env)
    ∷ (codes "NOOP", command_noop)
    ∷ (codes "OPTS", command_opts env)
    ∷ (codes "PASS", command_pass env)
    ∷ (codes "PWD", command_pwd)
    ∷ (codes "QUIT", command_quit env)
    ∷ (codes "RETR", command_retr env)
    ∷ (codes "REST", command_rest)
    ∷ (codes "RNFR", command_rnfr)
    ∷ (codes "RNTO", command_rnto env)
    ∷ (codes "RMD", command_rmd env)
    ∷ (codes "SIZE", command_size env)
    ∷ (codes "STOR", command_stor env)
    ∷ (codes "STRU", command_stru env)
    ∷ (codes "SYST", command_syst)
    ∷ (codes "TYPE", command_type env)
    ∷ (codes "USER", command_user)
    ∷ (codes "XCUP", command_cdup env)
    ∷ (codes "XCWD", command_cwd env)
    ∷ (codes "XPWD", command_pwd)
    ∷ (codes "XRMD", command_rmd env)
    ∷ []
