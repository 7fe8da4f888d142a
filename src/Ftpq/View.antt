-- ===== src/Ftpq/View.antt =====
-- A sub-connection seen as a connection of the package `ftps` that has no data connection: the two
-- packages share the names of their fields, and most of their commands.
use ftps_qftp_server.Prelude.{◌≡◌, false, Option, none, some, List, [], ◌∷◌}
use ftps_qftp_server.Prelude.Int.{negsuc}
use ftps_qftp_server.Text.{Bytes}
use ftps_qftp_server.Driver.{
  err, Driver, DriverCall, stat_call, change_dir_call, list_dir_call, delete_dir_call,
  delete_file_call, make_dir_call, rename_call, get_file_call, put_file_call,
}
use ftps_qftp_server.Ftps.State.{
  Socket, Conn, data_connection_clear, Event, print_command_event, print_response_event,
  print_event, printf_event, log_event, wrote, called, checked_passwd, closed_reader,
  closed_control, listen_error, other_error, copy_error, Network, Env, Session, Outcome, done,
  panic,
}
use ftps_qftp_server.Ftpq.State.{
  StreamId, QuicConn, SubConn, tag, SubEvent, logged_command, logged_response, logged,
  logged_format, logged_globally, wrote_reply, driver_called, password_checked, stream_opened,
  stream_accepted, stream_closed, stream_written, stream_copied, reader_closed, control_closed,
  session_closed, QuicEnv, SubSession, SubOutcome, finished, crashed, blocked,
}

-- The stream of an upload is left out: no such thing as a socket stands for it.
abbrev pub view_call : DriverCall StreamId → DriverCall Socket
view_call (stat_call p) = stat_call p
view_call (change_dir_call p) = change_dir_call p
view_call (list_dir_call p) = list_dir_call p
view_call (delete_dir_call p) = delete_dir_call p
view_call (delete_file_call p) = delete_file_call p
view_call (make_dir_call p) = make_dir_call p
view_call (rename_call p q) = rename_call p q
view_call (get_file_call p n) = get_file_call p n
view_call (put_file_call p stream append) = put_file_call p none append

-- What happens to streams is seen as a line of the log without text.
abbrev pub view_event : SubEvent → Event
view_event (logged_command name command param) = print_command_event name command param
view_event (logged_response name code message) = print_response_event name code message
view_event (logged name text) = print_event name text
view_event (logged_format name format args) = printf_event name format args
view_event (logged_globally text) = log_event text
view_event (wrote_reply reply) = wrote reply
view_event (driver_called c) = called (view_call c)
view_event (password_checked name pass r) = checked_passwd name pass r
view_event (reader_closed reader) = closed_reader reader
view_event control_closed = closed_control
view_event (stream_opened id) = log_event []
view_event (stream_accepted id) = log_event []
view_event (stream_closed id) = log_event []
view_event (stream_written id bytes) = log_event []
view_event (stream_copied id reader) = log_event []
view_event session_closed = log_event []

abbrev pub view_trace : List SubEvent → List Event
view_trace [] = []
view_trace (e ∷ trace) = view_event e ∷ view_trace trace

abbrev pub view_conn : SubConn → QuicConn → Conn
view_conn c shared = record {
  local_addr = shared.local_addr;
  data_conn = none;
  server = record {
    public_ip = shared.server.public_ip;
    passive_ports = [];
    welcome_message = shared.server.welcome_message;
    feats = shared.server.feats;
  };
  tls_config = none;
  session_id = tag c;
  name_prefix = c.name_prefix;
  req_user = c.req_user;
  user = c.user;
  rename_from = c.rename_from;
  last_file_pos = c.last_file_pos;
  append_data = c.append_data;
  closed = c.closed;
  tls = false;
  protocol_buffer_size = negsuc 0;
  data_connection_protection = data_connection_clear;
}

abbrev pub view_driver : {W : Type 0} → Driver StreamId W → Driver Socket W
view_driver d = record {
  stat = d.stat;
  change_dir = d.change_dir;
  list_dir = d.list_dir;
  delete_dir = d.delete_dir;
  delete_file = d.delete_file;
  rename = d.rename;
  make_dir = d.make_dir;
  get_file = d.get_file;
  put_file = λ path socket append. d.put_file path none append;
  check_passwd = d.check_passwd;
}

-- A network on which nothing can be opened.
abbrev pub no_network : {W : Type 0} → (Bytes → Bytes) → Network W
no_network upper = record {
  dial = λ address w. (err [], w);
  listen = λ port w. (listen_error (other_error []), w);
  handshake = λ w. (err [], w);
  write_data = λ socket bytes w. w;
  copy_data = λ socket reader w. (copy_error [], w);
  intn = λ n w. (0, w);
  address_in_use = 0;
  is_windows = false;
  unicode_upper = upper;
}

module _ {W : Type 0} where
  abbrev pub view : SubSession W → Session W
  view s = record { conn = view_conn s.sub s.shared; world = s.world; trace = view_trace s.trace }

  abbrev pub view_env : QuicEnv W → Env W
  view_env env = record { driver = view_driver env.driver; network = no_network env.unicode_upper }

  -- What waits for ever is nothing that a connection of `ftps` does.
  abbrev pub view_outcome : SubOutcome W Unit → Option (Outcome W Unit)
  view_outcome (finished a s) = some (done a (view s))
  view_outcome (crashed fault s) = some (panic fault (view s))
  view_outcome (blocked s) = none

  -- The state in which an action of a sub-connection ends, or waits for ever.
  abbrev pub SubPost : {A : Type 0} → (SubSession W → Type 0) → SubOutcome W A → Type 0
  SubPost I (finished a s) = I s
  SubPost I (crashed fault s) = I s
  SubPost I (blocked s) = I s

  -- A sub-connection and the connection that it is seen as come to the same end.
  abbrev pub IsAlike : SubOutcome W Unit → Outcome W Unit → Type 0
  IsAlike o o' = view_outcome o ≡ some o'
