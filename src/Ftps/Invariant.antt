-- ===== src/Ftps/Invariant.antt =====
-- What every command keeps: an interface for invariants of a connection, with a law for each way in
-- which a command changes the state. An invariant that has the laws is kept by all the commands.
pub mod Rules
pub mod Control
pub mod Security
pub mod Files
pub mod Ports
pub mod Transfer
pub mod Table
pub mod Serve
use ftps_qftp_server.Prelude.{
  ℕ, ◌≤◌, ◌≡◌, ◌≢◌, refl, ◌⊎◌, inl, inr, Bool, true, false, Option, none, some, [], ◌∷◌,
}
use ftps_qftp_server.Prelude.Int.{ℤ, pos, negsuc, ◌≤ℤ◌}
use ftps_qftp_server.Text.{Bytes}
use ftps_qftp_server.Driver.{
  Result, ok, err, DriverCall, stat_call, change_dir_call, list_dir_call, delete_dir_call,
  delete_file_call, make_dir_call, rename_call, get_file_call, put_file_call,
}
use ftps_qftp_server.FilePath.Sandbox.{IsSandboxed}
use ftps_qftp_server.Ftps.State.{
  Socket, Conn, data_connection_protected, Event, called, checked_passwd, upgraded, Session,
  Outcome, done, panic, M,
}

-- A path that RNTO may find pending: none, or one of the tree.
abbrev pub IsPending : Bytes → Type 0
IsPending p = (p ≡ []) ⊎ IsSandboxed p

-- A call of the driver on paths of the tree below the root only.
abbrev pub IsConfinedCall : DriverCall Socket → Type 0
IsConfinedCall (stat_call p) = IsSandboxed p
IsConfinedCall (change_dir_call p) = IsSandboxed p
IsConfinedCall (list_dir_call p) = IsSandboxed p
IsConfinedCall (delete_dir_call p) = IsSandboxed p
IsConfinedCall (delete_file_call p) = IsSandboxed p
IsConfinedCall (make_dir_call p) = IsSandboxed p
IsConfinedCall (rename_call p q) = IsPending p × IsSandboxed q
IsConfinedCall (get_file_call p n) = IsSandboxed p
IsConfinedCall (put_file_call p socket append) = IsSandboxed p

-- An event that is neither a call of the driver nor an answer of the auth.
abbrev pub IsQuiet : Event → Type 0
IsQuiet (called c) = ⊥
IsQuiet (checked_passwd name pass r) = ⊥
IsQuiet _ = Unit

-- The state in which an action ends, by a value or by a panic.
abbrev pub Post : {W A : Type 0} → (Session W → Type 0) → Outcome W A → Type 0
Post I (done a s) = I s
Post I (panic fault s) = I s

module _ {W : Type 0} where
  abbrev pub with_event : Event → Session W → Session W
  with_event e s = record s { trace = e ∷ s.trace }

  -- The laws for the commands that need no user.
  pub record Invariant (I : Session W → Type 0) : Type 0 where
    pub quiet : (s : Session W) (e : Event) → IsQuiet e → I s → I (with_event e s)
    pub moved : (s : Session W) (w : W) → I s → I (record s { world = w })
    pub requested :
        (s : Session W) (name : Bytes)
        → I s
        → I (record s { conn = record s.conn { req_user = name } })
    pub refused :
        (s : Session W) (pass : Bytes) (r : Result Bool)
        → r ≢ ok true
        → I s
        → I (with_event (checked_passwd s.req_user pass r) s)
    pub accepted :
        (s : Session W) (pass : Bytes)
        → I s
        → I (record (with_event (checked_passwd s.req_user pass (ok true)) s) {
          conn = record s.conn { user = s.req_user; req_user = [] };
        })
    pub shut : (s : Session W) → I s → I (record s { conn = record s.conn { closed = true } })
    pub dropped : (s : Session W) → I s → I (record s { conn = record s.conn { data_conn = none } })
    pub secured :
        (s : Session W)
        → I s
        → I (record (with_event upgraded s) { conn = record s.conn { tls = true } })
    pub sized :
        (s : Session W)
        → s.tls ≡ true
        → I s
        → I (record s { conn = record s.conn { protocol_buffer_size = pos 0 } })
    pub protected :
        (s : Session W)
        → s.tls ≡ true
        → pos 0 ≤ℤ s.protocol_buffer_size
        → I s
        → I (record s {
          conn = record s.conn { data_connection_protection = data_connection_protected };
        })

  -- The laws for all the commands.
  pub record PathInvariant (I : Session W → Type 0) : Type 0 where
    pub base : Invariant I
    pub open base use *
    pub in_tree : (s : Session W) → I s → IsSandboxed s.name_prefix
    pub pending_in_tree : (s : Session W) → I s → IsPending s.rename_from
    pub calls :
        (s : Session W) (c : DriverCall Socket)
        → IsConfinedCall c
        → I s
        → I (with_event (called c) s)
    pub entered :
        (s : Session W) (p : Bytes)
        → IsSandboxed p
        → I s
        → I (record s { conn = record s.conn { name_prefix = p } })
    pub renaming :
        (s : Session W) (p : Bytes)
        → IsPending p
        → I s
        → I (record s { conn = record s.conn { rename_from = p } })
    pub transferred :
        (s : Session W) (socket : Option Socket) (position : ℤ) (append : Bool)
        → I s
        → I (record s {
          conn = record s.conn {
            data_conn = socket;
            last_file_pos = position;
            append_data = append;
          };
        })
