-- ===== src/Ftps/Invariant/Table.antt =====
-- Every command of the table `commands` of ftps/cmd.go keeps an invariant.
use ftps_qftp_server.Prelude.{◌≡◌, refl, ◌⊎◌, inl, inr, true, All}
use ftps_qftp_server.Text.{Bytes}
use ftps_qftp_server.Ftps.State.{Env, Session}
use ftps_qftp_server.Ftps.Commands.{commands}
use ftps_qftp_server.Ftps.Invariant.{Invariant, PathInvariant}
use ftps_qftp_server.Ftps.Invariant.Rules.{Keeps}
use ftps_qftp_server.Ftps.Invariant.Control.{
  allo-Keeps, feat-Keeps, noop-Keeps, pwd-Keeps, quit-Keeps, syst-Keeps, user-Keeps, opts-Keeps,
  pass-Keeps, mode-Keeps, stru-Keeps, type-Keeps,
}
use ftps_qftp_server.Ftps.Invariant.Security.{not_taken-Keeps, pbsz-Keeps, prot-Keeps, auth-Keeps}
use ftps_qftp_server.Ftps.Invariant.Files.{
  rnfr-Keeps, cwd-Keeps, cdup-Keeps, dele-Keeps, mkd-Keeps, rmd-Keeps, rnto-Keeps, mdtm-Keeps,
  size-Keeps,
}
use ftps_qftp_server.Ftps.Invariant.Ports.{eprt-Keeps, epsv-Keeps, pasv-Keeps, port-Keeps}
use ftps_qftp_server.Ftps.Invariant.Transfer.{
  appe-Keeps, rest-Keeps, list-Keeps, nlst-Keeps, retr-Keeps, stor-Keeps,
}

-- The rows of the table, one behind the other.
infixr 6 ◌⊗◌
pub ◌⊗◌ : {A B : Type 0} → A → B → A × B
a ⊗ b = (a, b)

module _ {W : Type 0} {I : Session W → Type 0} (inv : PathInvariant I) (env : Env W) where
  -- In the order of the table.
  pub commands-Keeps : All (λ row. (param : Bytes) → Keeps I (row.1.execute param)) (commands env)
  unfolding commands
  commands-Keeps =
      not_taken-Keeps inv.base
      ⊗ allo-Keeps inv.base
      ⊗ appe-Keeps inv
      ⊗ auth-Keeps inv.base env
      ⊗ cdup-Keeps inv env
      ⊗ cwd-Keeps inv env
      ⊗ not_taken-Keeps inv.base
      ⊗ not_taken-Keeps inv.base
      ⊗ dele-Keeps inv env
      ⊗ not_taken-Keeps inv.base
      ⊗ eprt-Keeps inv env
      ⊗ epsv-Keeps inv env
      ⊗ feat-Keeps inv.base
      ⊗ list-Keeps inv env
      ⊗ nlst-Keeps inv env
      ⊗ mdtm-Keeps inv env
      ⊗ not_taken-Keeps inv.base
      ⊗ mkd-Keeps inv env
      ⊗ mode-Keeps inv.base env
      ⊗ noop-Keeps inv.base
      ⊗ opts-Keeps inv.base env
      ⊗ pass-Keeps inv.base env
      ⊗ pasv-Keeps inv env
      ⊗ pbsz-Keeps inv.base
      ⊗ port-Keeps inv env
      ⊗ prot-Keeps inv.base
      ⊗ pwd-Keeps inv.base
      ⊗ quit-Keeps inv.base
      ⊗ retr-Keeps inv env
      ⊗ rest-Keeps inv
      ⊗ rnfr-Keeps inv
      ⊗ rnto-Keeps inv env
      ⊗ rmd-Keeps inv env
      ⊗ size-Keeps inv env
      ⊗ stor-Keeps inv env
      ⊗ stru-Keeps inv.base env
      ⊗ syst-Keeps inv.base
      ⊗ type-Keeps inv.base env
      ⊗ user-Keeps inv.base
      ⊗ cdup-Keeps inv env
      ⊗ cwd-Keeps inv env
      ⊗ pwd-Keeps inv.base
      ⊗ rmd-Keeps inv env
      ⊗ tt

module _ {W : Type 0} {I : Session W → Type 0} (inv : Invariant I) (env : Env W) where
  -- In the order of the table: a command either wants a user, or needs the first laws only.
  pub open_commands-Keeps :
      All
        (λ row. (row.1.require_auth ≡ true) ⊎ ((param : Bytes) → Keeps I (row.1.execute param)))
        (commands env)
  unfolding commands
  open_commands-Keeps =
      inl refl
      ⊗ inr (allo-Keeps inv)
      ⊗ inl refl
      ⊗ inr (auth-Keeps inv env)
      ⊗ inl refl
      ⊗ inl refl
      ⊗ inl refl
      ⊗ inl refl
      ⊗ inl refl
      ⊗ inl refl
      ⊗ inl refl
      ⊗ inl refl
      ⊗ inr (feat-Keeps inv)
      ⊗ inl refl
      ⊗ inl refl
      ⊗ inl refl
      ⊗ inl refl
      ⊗ inl refl
      ⊗ inl refl
      ⊗ inr (noop-Keeps inv)
      ⊗ inr (opts-Keeps inv env)
      ⊗ inr (pass-Keeps inv env)
      ⊗ inl refl
      ⊗ inr (pbsz-Keeps inv)
      ⊗ inl refl
      ⊗ inr (prot-Keeps inv)
      ⊗ inl refl
      ⊗ inr (quit-Keeps inv)
      ⊗ inl refl
      ⊗ inl refl
      ⊗ inl refl
      ⊗ inl refl
      ⊗ inl refl
      ⊗ inl refl
      ⊗ inl refl
      ⊗ inl refl
      ⊗ inl refl
      ⊗ inl refl
      ⊗ inr (user-Keeps inv)
      ⊗ inl refl
      ⊗ inl refl
      ⊗ inl refl
      ⊗ inl refl
      ⊗ tt
