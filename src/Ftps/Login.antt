-- ===== src/Ftps/Login.antt =====
-- Over a whole connection: the driver is used behind an accepted password only.
use ftps_qftp_server.Prelude.{
  ap, ◌≡◌, ◌≢◌, refl, ◌⊎◌, inl, inr, true, Option, List, [], ◌∷◌, Bool-cases,
}
use ftps_qftp_server.Text.{Bytes, bytes_eq}
use ftps_qftp_server.Text.Equality.{bytes_eq→eq, bytes_eq-ne}
use ftps_qftp_server.Driver.{ok}
use ftps_qftp_server.Ftps.State.{
  Server, TlsConfig, Event, called, checked_passwd, upgraded, Env, Session,
}
use ftps_qftp_server.Ftps.Server.{new_conn, new_session}
use ftps_qftp_server.Ftps.Dispatch.{receive_line, serve}
use ftps_qftp_server.Ftps.Invariant.{IsQuiet, Post, Invariant, PathInvariant}
use ftps_qftp_server.Ftps.Invariant.Serve.{receive_line-Keeps, receive_line_open, serve-Keeps}
use ftps_qftp_server.Ftps.Invariant.Rules.{Post-map, Keeps}
use ftps_qftp_server.Ftps.Confined.{IsInTree, root-IsInTree}

-- The auth accepted a password for a user whose name is not empty.
abbrev pub IsAccepted : Event → Type 0
IsAccepted (checked_passwd name pass r) = (name ≢ []) × (r ≡ ok true)
IsAccepted _ = ⊥

abbrev pub HasLogin : List Event → Type 0
HasLogin [] = ⊥
HasLogin (e ∷ earlier) = IsAccepted e ⊎ HasLogin earlier

-- A call of the driver has a login among the events before it.
abbrev pub IsCovered : Event → List Event → Type 0
IsCovered (called c) earlier = HasLogin earlier
IsCovered _ earlier = Unit

abbrev pub IsLoginFirst : List Event → Type 0
IsLoginFirst [] = Unit
IsLoginFirst (e ∷ earlier) = IsCovered e earlier × IsLoginFirst earlier

quiet-IsCovered : (e : Event) (earlier : List Event) → IsQuiet e → IsCovered e earlier
quiet-IsCovered (called c) earlier q = absurd q
quiet-IsCovered _ earlier q = tt

-- With a login behind it, a connection may call the driver.
pub record IsAdmitted {W : Type 0} (s : Session W) : Type 0 where
  pub tree : IsInTree s.name_prefix s.rename_from
  pub login : HasLogin s.trace
  pub order : IsLoginFirst s.trace

pub record IsGuarded {W : Type 0} (s : Session W) : Type 0 where
  pub tree : IsInTree s.name_prefix s.rename_from
  pub login : (s.user ≡ []) ⊎ HasLogin s.trace
  pub order : IsLoginFirst s.trace

later :
    {A : Type 0} (e : Event) (trace : List Event) → A ⊎ HasLogin trace → A ⊎ HasLogin (e ∷ trace)
later e trace (inl a) = inl a
later e trace (inr h) = inr (inr h)

logged_in :
    (name pass : Bytes) (trace : List Event)
    → (name ≡ []) ⊎ HasLogin (checked_passwd name pass (ok true) ∷ trace)
logged_in name pass trace = elim (Bool-cases (bytes_eq name [])) [
  | inl e ↦ inl (bytes_eq→eq name [] e)
  | inr e ↦ inr (inl (bytes_eq-ne name [] e, refl))
]

module _ {W : Type 0} where
  IsAdmitted-base : Invariant (IsAdmitted {W = W})
  IsAdmitted-base = record {
    quiet = λ s e q h. record {
      tree = h.tree;
      login = inr h.login;
      order = (quiet-IsCovered e s.trace q, h.order);
    };
    moved = λ s w h. record { tree = h.tree; login = h.login; order = h.order };
    requested = λ s name h. record { tree = h.tree; login = h.login; order = h.order };
    refused = λ s pass r n h. record { tree = h.tree; login = inr h.login; order = (tt, h.order) };
    accepted = λ s pass h. record { tree = h.tree; login = inr h.login; order = (tt, h.order) };
    shut = λ s h. record { tree = h.tree; login = h.login; order = h.order };
    dropped = λ s h. record { tree = h.tree; login = h.login; order = h.order };
    secured = λ s h. record { tree = h.tree; login = inr h.login; order = (tt, h.order) };
    sized = λ s t h. record { tree = h.tree; login = h.login; order = h.order };
    protected = λ s t z h. record { tree = h.tree; login = h.login; order = h.order };
  }

  pub IsAdmitted-law : PathInvariant (IsAdmitted {W = W})
  IsAdmitted-law = record {
    base = IsAdmitted-base;
    in_tree = λ s h. h.tree.prefix;
    pending_in_tree = λ s h. h.tree.pending;
    calls = λ s c k h. record { tree = h.tree; login = inr h.login; order = (h.login, h.order) };
    entered = λ s p k h. record {
      tree = record { prefix = k; pending = h.tree.pending };
      login = h.login;
      order = h.order;
    };
    renaming = λ s p k h. record {
      tree = record { prefix = h.tree.prefix; pending = k };
      login = h.login;
      order = h.order;
    };
    transferred =
        λ s socket position append h. record { tree = h.tree; login = h.login; order = h.order };
  }

  pub IsGuarded-law : Invariant (IsGuarded {W = W})
  IsGuarded-law = record {
    quiet = λ s e q h. record {
      tree = h.tree;
      login = later e s.trace h.login;
      order = (quiet-IsCovered e s.trace q, h.order);
    };
    moved = λ s w h. record { tree = h.tree; login = h.login; order = h.order };
    requested = λ s name h. record { tree = h.tree; login = h.login; order = h.order };
    refused = λ s pass r n h. record {
      tree = h.tree;
      login = later (checked_passwd s.req_user pass r) s.trace h.login;
      order = (tt, h.order);
    };
    accepted = λ s pass h. record {
      tree = h.tree;
      login = logged_in s.req_user pass s.trace;
      order = (tt, h.order);
    };
    shut = λ s h. record { tree = h.tree; login = h.login; order = h.order };
    dropped = λ s h. record { tree = h.tree; login = h.login; order = h.order };
    secured = λ s h. record {
      tree = h.tree;
      login = later upgraded s.trace h.login;
      order = (tt, h.order);
    };
    sized = λ s t h. record { tree = h.tree; login = h.login; order = h.order };
    protected = λ s t z h. record { tree = h.tree; login = h.login; order = h.order };
  }

  receive_line-IsGuarded : (env : Env W) (line : Bytes) → Keeps IsGuarded (receive_line env line)
  unfolding bytes_eq
  receive_line-IsGuarded env line = record { at = λ s h. at_user s h h.login }
    where
      at_user :
          (s : Session W)
          → IsGuarded s
          → (s.user ≡ []) ⊎ HasLogin s.trace
          → Post IsGuarded (receive_line env line s)
      at_user s h (inl u) = receive_line_open IsGuarded-law env line s (ap (λ n. bytes_eq n []) u) h
      at_user s h (inr login) =
          Post-map {I = IsAdmitted}
            (λ t k. record { tree = k.tree; login = inr k.login; order = k.order }) _
            ((receive_line-Keeps IsAdmitted-law env line).at s
              (record { tree = h.tree; login = login; order = h.order }))

  -- Whatever lines a client sends on a new connection, and however its input ends, before each call
  -- of the driver the auth has accepted a password for a user whose name is not empty.
  pub serve-IsLoginFirst :
      (env : Env W) (server : Server) (tls_config : Option TlsConfig)
      (local_addr session_id : Bytes) (w : W) (lines : List Bytes) (failure : Option Bytes)
      → Post
          (λ s. IsLoginFirst s.trace)
          (serve env lines failure (new_session server tls_config local_addr session_id w))
  unfolding new_session new_conn
  serve-IsLoginFirst env server tls_config local_addr session_id w lines failure =
      Post-map {I = IsGuarded} (λ s h. h.order) _
        ((serve-Keeps IsGuarded-law env (receive_line-IsGuarded env) lines failure).at _
          (record { tree = root-IsInTree; login = inl refl; order = tt }))
