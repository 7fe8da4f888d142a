-- ===== src/Ftps/Protection.antt =====
-- Over a whole connection: protected data connections come behind TLS on the control connection.
use ftps_qftp_server.Prelude.{
  arith, ◌≡◌, refl, Bool, true, false, ◌⊎◌, inl, inr, Option, List, [], ◌∷◌,
}
use ftps_qftp_server.Prelude.Int.{ℤ, pos, ◌≤ℤ◌}
use ftps_qftp_server.Text.{Bytes}
use ftps_qftp_server.Ftps.State.{
  ProtectionLevel, data_connection_clear, data_connection_protected, Server, TlsConfig, Event,
  upgraded, Env, Session,
}
use ftps_qftp_server.Ftps.Server.{new_conn, new_session}
use ftps_qftp_server.Ftps.Dispatch.{serve}
use ftps_qftp_server.Ftps.Invariant.{Post, Invariant, PathInvariant}
use ftps_qftp_server.Ftps.Invariant.Serve.{receive_line-Keeps, serve-Keeps}
use ftps_qftp_server.Ftps.Invariant.Rules.{Post-map}
use ftps_qftp_server.Ftps.Confined.{IsInTree, root-IsInTree}

-- The level is P only with a buffer size set and TLS on the control connection.
abbrev pub IsLevelAllowed : ProtectionLevel → ℤ → Bool → Type 0
IsLevelAllowed data_connection_clear size tls = Unit
IsLevelAllowed data_connection_protected size tls = (pos 0 ≤ℤ size) × (tls ≡ true)

abbrev pub HasUpgrade : List Event → Type 0
HasUpgrade [] = ⊥
HasUpgrade (e ∷ earlier) = (e ≡ upgraded) ⊎ HasUpgrade earlier

-- The flag says that a handshake has succeeded.
abbrev pub IsFlagTrue : Bool → List Event → Type 0
IsFlagTrue true trace = HasUpgrade trace
IsFlagTrue false trace = Unit

abbrev pub IsProtectionSound : {W : Type 0} → Session W → Type 0
IsProtectionSound s =
    IsLevelAllowed s.data_connection_protection s.protocol_buffer_size s.tls
    × IsFlagTrue s.tls s.trace

record IsSound {W : Type 0} (s : Session W) : Type 0 where
  tree : IsInTree s.name_prefix s.rename_from
  level : IsLevelAllowed s.data_connection_protection s.protocol_buffer_size s.tls
  flag : IsFlagTrue s.tls s.trace

keep_flag :
    (tls : Bool) (e : Event) (trace : List Event)
    → IsFlagTrue tls trace
    → IsFlagTrue tls (e ∷ trace)
keep_flag true e trace h = inr h
keep_flag false e trace h = tt

keep_level :
    (level : ProtectionLevel) (size : ℤ) (tls : Bool)
    → IsLevelAllowed level size tls
    → IsLevelAllowed level size true
keep_level data_connection_clear size tls h = tt
keep_level data_connection_protected size tls h = (h.0, refl)

set_size :
    (level : ProtectionLevel) (size : ℤ) (tls : Bool)
    → tls ≡ true
    → IsLevelAllowed level size tls
    → IsLevelAllowed level (pos 0) tls
set_size data_connection_clear size tls t h = tt
set_size data_connection_protected size tls t h = (omega arith, t)

module _ {W : Type 0} where
  IsSound-base : Invariant (IsSound {W = W})
  IsSound-base = record {
    quiet = λ s e q h. record {
      tree = h.tree;
      level = h.level;
      flag = keep_flag s.tls e s.trace h.flag;
    };
    moved = λ s w h. record { tree = h.tree; level = h.level; flag = h.flag };
    requested = λ s name h. record { tree = h.tree; level = h.level; flag = h.flag };
    refused = λ s pass r n h. record {
      tree = h.tree;
      level = h.level;
      flag = keep_flag s.tls _ s.trace h.flag;
    };
    accepted = λ s pass h. record {
      tree = h.tree;
      level = h.level;
      flag = keep_flag s.tls _ s.trace h.flag;
    };
    shut = λ s h. record { tree = h.tree; level = h.level; flag = h.flag };
    dropped = λ s h. record { tree = h.tree; level = h.level; flag = h.flag };
    secured = λ s h. record {
      tree = h.tree;
      level = keep_level s.data_connection_protection s.protocol_buffer_size s.tls h.level;
      flag = inl refl;
    };
    sized = λ s t h. record {
      tree = h.tree;
      level = set_size s.data_connection_protection s.protocol_buffer_size s.tls t h.level;
      flag = h.flag;
    };
    protected = λ s t z h. record { tree = h.tree; level = (z, t); flag = h.flag };
  }

  IsSound-law : PathInvariant (IsSound {W = W})
  IsSound-law = record {
    base = IsSound-base;
    in_tree = λ s h. h.tree.prefix;
    pending_in_tree = λ s h. h.tree.pending;
    calls = λ s c k h. record {
      tree = h.tree;
      level = h.level;
      flag = keep_flag s.tls _ s.trace h.flag;
    };
    entered = λ s p k h. record {
      tree = record { prefix = k; pending = h.tree.pending };
      level = h.level;
      flag = h.flag;
    };
    renaming = λ s p k h. record {
      tree = record { prefix = h.tree.prefix; pending = k };
      level = h.level;
      flag = h.flag;
    };
    transferred =
        λ s socket position append h. record { tree = h.tree; level = h.level; flag = h.flag };
  }

  -- Whatever lines a client sends on a new connection, and however its input ends, the level of the
  -- data connections is P only if a buffer size was set and the control connection has TLS, and the
  -- connection takes itself to have TLS only behind a handshake that succeeded.
  pub serve_protection :
      (env : Env W) (server : Server) (tls_config : Option TlsConfig)
      (local_addr session_id : Bytes) (w : W) (lines : List Bytes) (failure : Option Bytes)
      → Post IsProtectionSound
          (serve env lines failure (new_session server tls_config local_addr session_id w))
  unfolding new_session new_conn
  serve_protection env server tls_config local_addr session_id w lines failure =
      Post-map {I = IsSound} (λ s h. (h.level, h.flag)) _
        ((serve-Keeps IsSound-base env (receive_line-Keeps IsSound-law env) lines failure).at _
          (record { tree = root-IsInTree; level = tt; flag = tt }))
