-- ===== src/Ftps/Confined.antt =====
-- Over a whole connection: the driver sees paths of the tree below the root only.
use ftps_qftp_server.Prelude.{refl, inl, Option, List, [], ◌∷◌, All}
use ftps_qftp_server.Text.{Bytes}
use ftps_qftp_server.FilePath.Sandbox.{IsSandboxed}
use ftps_qftp_server.FilePath.{rooted_path}
use ftps_qftp_server.Ftps.State.{Server, TlsConfig, Event, called, Env, Session}
use ftps_qftp_server.Ftps.Server.{new_conn, new_session}
use ftps_qftp_server.Ftps.Dispatch.{serve}
use ftps_qftp_server.Ftps.Invariant.{
  IsPending, IsConfinedCall, IsQuiet, Post, Invariant, PathInvariant,
}
use ftps_qftp_server.Ftps.Invariant.Serve.{receive_line-Keeps, serve-Keeps}
use ftps_qftp_server.Ftps.Invariant.Rules.{Post-map}

abbrev pub IsConfinedEvent : Event → Type 0
IsConfinedEvent (called c) = IsConfinedCall c
IsConfinedEvent _ = Unit

pub quiet-IsConfinedEvent : (e : Event) → IsQuiet e → IsConfinedEvent e
quiet-IsConfinedEvent (called c) q = absurd q
quiet-IsConfinedEvent _ q = tt

-- The directory and the pending name of a connection are paths of the tree.
pub record IsInTree (name_prefix rename_from : Bytes) : Type 0 where
  pub prefix : IsSandboxed name_prefix
  pub pending : IsPending rename_from

pub record IsConfined {W : Type 0} (s : Session W) : Type 0 where
  pub tree : IsInTree s.name_prefix s.rename_from
  pub events : All IsConfinedEvent s.trace

pub root-IsInTree : IsInTree (b'/' ∷ []) []
unfolding rooted_path
root-IsInTree = record {
  prefix = record { names = []; all_names = tt; spelled = refl };
  pending = inl refl;
}

module _ {W : Type 0} where
  pub IsConfined-base : Invariant (IsConfined {W = W})
  IsConfined-base = record {
    quiet = λ s e q h. record { tree = h.tree; events = (quiet-IsConfinedEvent e q, h.events) };
    moved = λ s w h. record { tree = h.tree; events = h.events };
    requested = λ s name h. record { tree = h.tree; events = h.events };
    refused = λ s pass r n h. record { tree = h.tree; events = (tt, h.events) };
    accepted = λ s pass h. record { tree = h.tree; events = (tt, h.events) };
    shut = λ s h. record { tree = h.tree; events = h.events };
    dropped = λ s h. record { tree = h.tree; events = h.events };
    secured = λ s h. record { tree = h.tree; events = (tt, h.events) };
    sized = λ s t h. record { tree = h.tree; events = h.events };
    protected = λ s t z h. record { tree = h.tree; events = h.events };
  }

  pub IsConfined-law : PathInvariant (IsConfined {W = W})
  IsConfined-law = record {
    base = IsConfined-base;
    in_tree = λ s h. h.tree.prefix;
    pending_in_tree = λ s h. h.tree.pending;
    calls = λ s c k h. record { tree = h.tree; events = (k, h.events) };
    entered = λ s p k h. record {
      tree = record { prefix = k; pending = h.tree.pending };
      events = h.events;
    };
    renaming = λ s p k h. record {
      tree = record { prefix = h.tree.prefix; pending = k };
      events = h.events;
    };
    transferred = λ s socket position append h. record { tree = h.tree; events = h.events };
  }

  -- Whatever lines a client sends on a new connection, and however its input ends, every path that
  -- the server hands to the driver is an absolute path of names, none of them empty, "." or "..",
  -- except that the source of a rename may be the empty path.
  pub serve_confined :
      (env : Env W) (server : Server) (tls_config : Option TlsConfig)
      (local_addr session_id : Bytes) (w : W) (lines : List Bytes) (failure : Option Bytes)
      → Post
          (λ s. All IsConfinedEvent s.trace)
          (serve env lines failure (new_session server tls_config local_addr session_id w))
  unfolding new_session new_conn
  serve_confined env server tls_config local_addr session_id w lines failure =
      Post-map {I = IsConfined} (λ s h. h.events) _
        ((serve-Keeps IsConfined-base env (receive_line-Keeps IsConfined-law env) lines failure).at
          _ (record { tree = root-IsInTree; events = tt }))
