-- ===== src/Ftpq/Invariant/Table.antt =====
-- Every command of the table `commands` of ftpq/cmd.go keeps an invariant.
use ftps_qftp_server.Prelude.{◌≡◌, refl, ◌⊎◌, inl, inr, true, All}
use ftps_qftp_server.Text.{Bytes, codes}
use ftps_qftp_server.Ftps.State.{Session, M}
use ftps_qftp_server.Ftps.Invariant.{Invariant, PathInvariant}
use ftps_qftp_server.Ftps.Invariant.Rules.{Keeps}
use ftps_qftp_server.Ftps.Invariant.Table.{◌⊗◌}
use ftps_qftp_server.Ftps.Invariant.Control.{
  allo-Keeps, feat-Keeps, noop-Keeps, pwd-Keeps, syst-Keeps, user-Keeps, opts-Keeps, pass-Keeps,
  mode-Keeps, stru-Keeps, type-Keeps,
}
use ftps_qftp_server.Ftps.Invariant.Files.{
  rnfr-Keeps, cwd-Keeps, cdup-Keeps, dele-Keeps, mkd-Keeps, rmd-Keeps, rnto-Keeps, mdtm-Keeps,
  size-Keeps,
}
use ftps_qftp_server.Ftps.Invariant.Transfer.{appe-Keeps, rest-Keeps}
use ftps_qftp_server.Ftpq.State.{QuicEnv, SubSession, Q}
use ftps_qftp_server.Ftpq.Commands.{commands}
use ftps_qftp_server.Ftpq.Commands.Control.{execute_hello, execute_quit}
use ftps_qftp_server.Ftpq.View.{view, view_env, IsAlike}
use ftps_qftp_server.Ftpq.Alike.Files.{
  rnfr-IsAlike, cwd-IsAlike, cdup-IsAlike, dele-IsAlike, mkd-IsAlike, rmd-IsAlike, rnto-IsAlike,
  mdtm-IsAlike, size-IsAlike,
}
use ftps_qftp_server.Ftpq.Alike.Control.{
  allo-IsAlike, feat-IsAlike, noop-IsAlike, pwd-IsAlike, syst-IsAlike, user-IsAlike, opts-IsAlike,
  pass-IsAlike, mode-IsAlike, stru-IsAlike, type-IsAlike,
}
use ftps_qftp_server.Ftpq.Alike.Transfer.{appe-IsAlike, rest-IsAlike}
use ftps_qftp_server.Ftpq.Invariant.{
  SubKeeps, alike-Post, bind-SubKeeps, write_message-SubKeeps, close-SubKeeps, report-SubKeeps,
}
use ftps_qftp_server.Ftpq.Invariant.Listing.{list-SubKeeps, nlst-SubKeeps}
use ftps_qftp_server.Ftpq.Invariant.Transfer.{retr-SubKeeps, stor-SubKeeps}

-- What a command of `ftps` keeps, a command that does the same keeps.
like :
    {W : Type 0} {I : Session W → Type 0} {m : Q W Unit} {n : M W Unit}
    → ((s : SubSession W) → IsAlike (m s) (n (view s)))
    → Keeps I n
    → SubKeeps I m
like {I = I} {m = m} {n = n} a k = record {
  at = λ s h. alike-Post I (m s) (n (view s)) (a s) (k.at (view s) h);
}

module _ {W : Type 0} {I : Session W → Type 0} (inv : Invariant I) where
  hello-SubKeeps : (param : Bytes) → SubKeeps I (execute_hello {W = W} param)
  unfolding execute_hello
  hello-SubKeeps param = record { at = λ s h. (write_message-SubKeeps inv _ _).at s h }

  quit-SubKeeps : (env : QuicEnv W) (param : Bytes) → SubKeeps I (execute_quit env param)
  unfolding execute_quit
  quit-SubKeeps env param = bind-SubKeeps (write_message-SubKeeps inv 221 (codes "Goodbye")) (λ _.
      record {
        at = λ s h.
            (bind-SubKeeps (close-SubKeeps inv) (λ _. report-SubKeeps inv)).at
              (record s { world = env.read_rest s.world }) (inv.moved (view s) _ h);
      })

module _ {W : Type 0} {I : Session W → Type 0} (inv : PathInvariant I) (env : QuicEnv W) where
  -- In the order of the table.
  pub commands-SubKeeps :
      All (λ row. (param : Bytes) → SubKeeps I (row.1.execute param)) (commands env)
  unfolding commands
  commands-SubKeeps =
      (λ p. like (λ s. allo-IsAlike s p) (allo-Keeps inv.base p))
      ⊗ (λ p. like (λ s. appe-IsAlike s p) (appe-Keeps inv p))
      ⊗ (λ p. like (λ s. cdup-IsAlike env s p) (cdup-Keeps inv (view_env env) p))
      ⊗ (λ p. like (λ s. cwd-IsAlike env s p) (cwd-Keeps inv (view_env env) p))
      ⊗ (λ p. like (λ s. dele-IsAlike env s p) (dele-Keeps inv (view_env env) p))
      ⊗ (λ p. like (λ s. feat-IsAlike s p) (feat-Keeps inv.base p))
      ⊗ hello-SubKeeps inv.base
      ⊗ list-SubKeeps inv env
      ⊗ nlst-SubKeeps inv env
      ⊗ (λ p. like (λ s. mdtm-IsAlike env s p) (mdtm-Keeps inv (view_env env) p))
      ⊗ (λ p. like (λ s. mkd-IsAlike env s p) (mkd-Keeps inv (view_env env) p))
      ⊗ (λ p. like (λ s. mode-IsAlike env s p) (mode-Keeps inv.base (view_env env) p))
      ⊗ (λ p. like (λ s. noop-IsAlike s p) (noop-Keeps inv.base p))
      ⊗ (λ p. like (λ s. opts-IsAlike env s p) (opts-Keeps inv.base (view_env env) p))
      ⊗ (λ p. like (λ s. pass-IsAlike env s p) (pass-Keeps inv.base (view_env env) p))
      ⊗ (λ p. like (λ s. pwd-IsAlike s p) (pwd-Keeps inv.base p))
      ⊗ quit-SubKeeps inv.base env
      ⊗ retr-SubKeeps inv env
      ⊗ (λ p. like (λ s. rest-IsAlike s p) (rest-Keeps inv p))
      ⊗ (λ p. like (λ s. rnfr-IsAlike s p) (rnfr-Keeps inv p))
      ⊗ (λ p. like (λ s. rnto-IsAlike env s p) (rnto-Keeps inv (view_env env) p))
      ⊗ (λ p. like (λ s. rmd-IsAlike env s p) (rmd-Keeps inv (view_env env) p))
      ⊗ (λ p. like (λ s. size-IsAlike env s p) (size-Keeps inv (view_env env) p))
      ⊗ stor-SubKeeps inv env
      ⊗ (λ p. like (λ s. stru-IsAlike env s p) (stru-Keeps inv.base (view_env env) p))
      ⊗ (λ p. like (λ s. syst-IsAlike s p) (syst-Keeps inv.base p))
      ⊗ (λ p. like (λ s. type-IsAlike env s p) (type-Keeps inv.base (view_env env) p))
      ⊗ (λ p. like (λ s. user-IsAlike s p) (user-Keeps inv.base p))
      ⊗ (λ p. like (λ s. cdup-IsAlike env s p) (cdup-Keeps inv (view_env env) p))
      ⊗ (λ p. like (λ s. cwd-IsAlike env s p) (cwd-Keeps inv (view_env env) p))
      ⊗ (λ p. like (λ s. pwd-IsAlike s p) (pwd-Keeps inv.base p))
      ⊗ (λ p. like (λ s. rmd-IsAlike env s p) (rmd-Keeps inv (view_env env) p))
      ⊗ tt

module _ {W : Type 0} {I : Session W → Type 0} (inv : Invariant I) (env : QuicEnv W) where
  -- In the order of the table: a command either wants a user, or needs the first laws only.
  pub open_commands-SubKeeps :
      All
        (λ row. (row.1.require_auth ≡ true) ⊎ ((param : Bytes) → SubKeeps I (row.1.execute param)))
        (commands env)
  unfolding commands
  open_commands-SubKeeps =
      inr (λ p. like (λ s. allo-IsAlike s p) (allo-Keeps inv p))
      ⊗ inl refl
      ⊗ inl refl
      ⊗ inl refl
      ⊗ inl refl
      ⊗ inr (λ p. like (λ s. feat-IsAlike s p) (feat-Keeps inv p))
      ⊗ inr (hello-SubKeeps inv)
      ⊗ inl refl
      ⊗ inl refl
      ⊗ inl refl
      ⊗ inl refl
      ⊗ inl refl
      ⊗ inr (λ p. like (λ s. noop-IsAlike s p) (noop-Keeps inv p))
      ⊗ inr (λ p. like (λ s. opts-IsAlike env s p) (opts-Keeps inv (view_env env) p))
      ⊗ inr (λ p. like (λ s. pass-IsAlike env s p) (pass-Keeps inv (view_env env) p))
      ⊗ inl refl
      ⊗ inr (quit-SubKeeps inv env)
      ⊗ inl refl
      ⊗ inl refl
      ⊗ inl refl
      ⊗ inl refl
      ⊗ inl refl
      ⊗ inl refl
      ⊗ inl refl
      ⊗ inl refl
      ⊗ inl refl
      ⊗ inl refl
      ⊗ inr (λ p. like (λ s. user-IsAlike s p) (user-Keeps inv p))
      ⊗ inl refl
      ⊗ inl refl
      ⊗ inl refl
      ⊗ inl refl
      ⊗ tt
