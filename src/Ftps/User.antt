-- ===== src/Ftps/User.antt =====
-- Over a whole connection: who is logged in has given a password that the auth accepted.
use ftps_qftp_server.Prelude.{◌≡◌, refl, ◌⊎◌, inl, inr, true, Option, List, [], ◌∷◌}
use ftps_qftp_server.Text.{Bytes}
use ftps_qftp_server.Driver.{ok}
use ftps_qftp_server.Ftps.State.{
  Server, TlsConfig, Event, called, checked_passwd, upgraded, Env, Session,
}
use ftps_qftp_server.Ftps.Server.{new_conn, new_session}
use ftps_qftp_server.Ftps.Dispatch.{serve}
use ftps_qftp_server.Ftps.Invariant.{Post, Invariant, PathInvariant}
use ftps_qftp_server.Ftps.Invariant.Serve.{receive_line-Keeps, serve-Keeps}
use ftps_qftp_server.Ftps.Invariant.Rules.{Post-map}
use ftps_qftp_server.Ftps.Confined.{IsInTree, root-IsInTree}

-- The auth accepted a password for that name.
abbrev pub IsAcceptedAs : Bytes → Event → Type 0
IsAcceptedAs user (checked_passwd name pass r) = (name ≡ user) × (r ≡ ok true)
IsAcceptedAs user _ = ⊥

abbrev pub HasLoginAs : Bytes → List Event → Type 0
HasLoginAs user [] = ⊥
HasLoginAs user (e ∷ earlier) = IsAcceptedAs user e ⊎ HasLoginAs user earlier

-- Nobody, or somebody whose password was accepted.
abbrev pub IsGenuine : Bytes → List Event → Type 0
IsGenuine user trace = (user ≡ []) ⊎ HasLoginAs user trace

pub record IsGenuineSession {W : Type 0} (s : Session W) : Type 0 where
  pub tree : IsInTree s.name_prefix s.rename_from
  pub genuine : IsGenuine s.user s.trace

later :
    (user : Bytes) (e : Event) (trace : List Event)
    → IsGenuine user trace
    → IsGenuine user (e ∷ trace)
later user e trace (inl h) = inl h
later user e trace (inr h) = inr (inr h)

module _ {W : Type 0} where
  pub IsGenuine-base : Invariant (IsGenuineSession {W = W})
  IsGenuine-base = record {
    quiet = λ s e q h. record { tree = h.tree; genuine = later s.user e s.trace h.genuine };
    moved = λ s w h. record { tree = h.tree; genuine = h.genuine };
    requested = λ s name h. record { tree = h.tree; genuine = h.genuine };
    refused = λ s pass r n h. record {
      tree = h.tree;
      genuine = later s.user (checked_passwd s.req_user pass r) s.trace h.genuine;
    };
    accepted = λ s pass h. record { tree = h.tree; genuine = inr (inl (refl, refl)) };
    shut = λ s h. record { tree = h.tree; genuine = h.genuine };
    dropped = λ s h. record { tree = h.tree; genuine = h.genuine };
    secured = λ s h. record { tree = h.tree; genuine = later s.user upgraded s.trace h.genuine };
    sized = λ s t h. record { tree = h.tree; genuine = h.genuine };
    protected = λ s t z h. record { tree = h.tree; genuine = h.genuine };
  }

  pub IsGenuine-law : PathInvariant (IsGenuineSession {W = W})
  IsGenuine-law = record {
    base = IsGenuine-base;
    in_tree = λ s h. h.tree.prefix;
    pending_in_tree = λ s h. h.tree.pending;
    calls =
        λ s c k h. record { tree = h.tree; genuine = later s.user (called c) s.trace h.genuine };
    entered = λ s p k h. record {
      tree = record { prefix = k; pending = h.tree.pending };
      genuine = h.genuine;
    };
    renaming = λ s p k h. record {
      tree = record { prefix = h.tree.prefix; pending = k };
      genuine = h.genuine;
    };
    transferred = λ s socket position append h. record { tree = h.tree; genuine = h.genuine };
  }

  -- Whatever lines a client sends on a new connection, and however its input ends, its user is empty or
  -- a name for which the auth accepted a password on this connection.
  pub serve-IsGenuine :
      (env : Env W) (server : Server) (tls_config : Option TlsConfig)
      (local_addr session_id : Bytes) (w : W) (lines : List Bytes) (failure : Option Bytes)
      → Post
          (λ s. IsGenuine s.user s.trace)
          (serve env lines failure (new_session server tls_config local_addr session_id w))
  unfolding new_session new_conn
  serve-IsGenuine env server tls_config local_addr session_id w lines failure =
      Post-map {I = IsGenuineSession} (λ s h. h.genuine) _
        ((serve-Keeps IsGenuine-base env (receive_line-Keeps IsGenuine-law env) lines failure).at _
          (record { tree = root-IsInTree; genuine = inl refl }))
