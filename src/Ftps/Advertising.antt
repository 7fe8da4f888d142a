-- ===== src/Ftps/Advertising.antt =====
-- The text of FEAT and the answer of AUTH: `ListenAndServe` of ftps/server.go and `commandAuth` of
-- ftps/cmd.go.
use mathlib.Core.Path.{subst}
use ftps_qftp_server.Prelude.{
  ◌≡◌, refl, sym, Bool, true, false, inl, inr, Option, none, some, List, [], ◌∷◌, ◌++◌,
  if◌then◌else◌,
}
use ftps_qftp_server.Text.{Bytes, codes, bytes_eq}
use ftps_qftp_server.Number.{format_int}
use ftps_qftp_server.Driver.{Result-cases}
use ftps_qftp_server.Ftps.State.{TlsConfig, Reply, single, Event, wrote, Env, Session}
use ftps_qftp_server.Ftps.Connection.{write_message, upgrade_to_tls}
use ftps_qftp_server.Ftps.Server.{ServerOpts}
use ftps_qftp_server.Ftps.Commands.Security.{has_config, accept_auth, answer_auth, execute_auth}
use ftps_qftp_server.Ftps.Invariant.{Post}
use ftps_qftp_server.Ftps.Accepting.{
  Arrival, Listening, ListenResult, end_listen, listen_with_tls, listen_and_serve,
}

-- The answers on the control connection, the newest first.
abbrev pub answers : List Event → List Reply
answers [] = []
answers (wrote reply ∷ trace) = reply ∷ answers trace
answers (e ∷ trace) = answers trace

-- What FEAT says of TLS, and what AUTH TLS answers.
abbrev pub with_auth_lines : Bool → Bytes → Bytes
with_auth_lines true cur = cur ++ codes " AUTH TLS\n PBSZ\n PROT\n"
with_auth_lines false cur = cur

abbrev pub auth_answer : Bool → Reply
auth_answer true = single 234 (codes "AUTH command OK")
auth_answer false = single 550 (codes "Action not taken")

module _ {W : Type 0} (env : Env W) (s : Session W) where
  auth_answered :
      (config : Option TlsConfig)
      → Post
          (λ t. answers t.trace ≡ auth_answer (has_config config) ∷ answers s.trace)
          (answer_auth env config (codes "TLS") s)
  unfolding answer_auth accept_auth has_config upgrade_to_tls write_message bytes_eq codes
  auth_answered none = refl
  auth_answered (some config) = elim (Result-cases (env.handshake s.world).0) [
    | inl (u, e) ↦ rw e refl
    | inr (t, e) ↦ rw e refl
  ]

-- What a server that listens says of TLS, with the option `tls` and the lines `cur`.
pub record IsAdvertised (tls : Bool) (cur : Bytes) (r : ListenResult) : Type 0 where
  pub text : r.feats ≡ codes "Extensions supported:\n" ++ with_auth_lines tls cur
  pub config : has_config r.tls_config ≡ tls

module _ {F A L : Type 0} (outside : Listening) (opts : ServerOpts F A L) (listen_to : Bytes) where
  end_listen-IsAdvertised :
      (cur : Bytes) (rounds : List Arrival) (config : TlsConfig) (name port : Bytes)
      (o : Option Bytes)
      → o ≡ none
      → IsAdvertised true cur
          (end_listen name port (some config) (cur ++ codes " AUTH TLS\n PBSZ\n PROT\n") rounds o)
  unfolding end_listen has_config codes
  end_listen-IsAdvertised cur rounds config name port none e = record { text = refl; config = refl }
  end_listen-IsAdvertised cur rounds config name port (some x) e = absurd cc

  plain-IsAdvertised :
      (cur : Bytes) (rounds : List Arrival) (name port : Bytes) (o : Option Bytes)
      → o ≡ none
      → IsAdvertised false cur (end_listen name port none cur rounds o)
  unfolding end_listen has_config codes
  plain-IsAdvertised cur rounds name port none e = record { text = refl; config = refl }
  plain-IsAdvertised cur rounds name port (some x) e = absurd cc

  either : (b : Bool) (x y : Option Bytes) → x ≡ none → y ≡ none → (if b then x else y) ≡ none
  either true x y ex ey = ex
  either false x y ex ey = ey

  tls-IsAdvertised :
      (cur : Bytes) (rounds : List Arrival) (o : Option Bytes)
      → o ≡ none
      → outside.listen listen_to ≡ none
      → outside.listen_tls listen_to ≡ none
      → IsAdvertised true cur (listen_with_tls outside opts listen_to cur rounds o)
  unfolding listen_with_tls codes
  tls-IsAdvertised cur rounds (some x) e plain secure = absurd cc
  tls-IsAdvertised cur rounds none e plain secure = end_listen-IsAdvertised cur rounds _ _ _ _ (
      either opts.explicit_ftps (outside.listen listen_to) (outside.listen_tls listen_to) plain
        secure)

  listening-IsAdvertised :
      (cur : Bytes) (rounds : List Arrival)
      → outside.load_key_pair opts.cert_file opts.key_file ≡ none
      → outside.listen listen_to ≡ none
      → outside.listen_tls listen_to ≡ none
      → IsAdvertised opts.tls cur (listen_and_serve outside opts listen_to cur rounds)
  unfolding listen_and_serve
  listening-IsAdvertised cur rounds loaded plain secure = by_tls opts.tls
    where
      by_tls :
          (b : Bool)
          → IsAdvertised b cur (
              if b
              then listen_with_tls outside opts listen_to cur rounds
                  (outside.load_key_pair opts.cert_file opts.key_file)
              else end_listen opts.name
                  (format_int opts.port)
                  none
                  cur
                  rounds
                  (outside.listen listen_to))
      by_tls true = tls-IsAdvertised cur rounds _ loaded plain secure
      by_tls false = plain-IsAdvertised cur rounds _ _ _ plain

  -- Where the key pair loads and the listeners open, ListenAndServe keeps FEAT and AUTH together: a
  -- server with the option TLS adds AUTH TLS, PBSZ and PROT to the text of FEAT, and a connection with the
  -- configuration that it leaves answers AUTH TLS with 234, whatever comes of the handshake; a server
  -- without the option adds nothing, and its connections answer AUTH TLS with 550.
  pub auth_advertised :
      {W : Type 0} (env : Env W) (cur : Bytes) (rounds : List Arrival) (s : Session W)
      → outside.load_key_pair opts.cert_file opts.key_file ≡ none
      → outside.listen listen_to ≡ none
      → outside.listen_tls listen_to ≡ none
      → s.tls_config ≡ (listen_and_serve outside opts listen_to cur rounds).tls_config
      → ((listen_and_serve outside opts listen_to cur rounds).feats
          ≡ codes "Extensions supported:\n" ++ with_auth_lines opts.tls cur)
        × Post
            (λ t. answers t.trace ≡ auth_answer opts.tls ∷ answers s.trace)
            (execute_auth env (codes "TLS") s)
  unfolding execute_auth
  auth_advertised env cur rounds s loaded plain secure same =
      let told = listening-IsAdvertised cur rounds loaded plain secure in
      (
        told.text,
        subst
            (λ b.
              Post (λ t. answers t.trace ≡ auth_answer b ∷ answers s.trace)
                (answer_auth env s.tls_config (codes "TLS") s))
            (subst (λ c. has_config c ≡ opts.tls) (sym same) told.config)
            (auth_answered env s s.tls_config),
      )
