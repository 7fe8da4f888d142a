-- ===== src/Ftpq/Server.antt =====
-- ftpq/server.go and ftpq/conn.go: the options of a server, the limits of QUIC, a new session and a new
-- sub-connection.
use ftps_qftp_server.Prelude.{ℕ, ◌*◌, ◌+◌, Bool, false, Option, none, some, [], ◌∷◌}
use ftps_qftp_server.Prelude.Int.{ℤ, pos}
use ftps_qftp_server.Text.{Bytes, codes}
use ftps_qftp_server.Number.{format_int}
use ftps_qftp_server.Ftps.Socket.{join_host_port}
use ftps_qftp_server.Ftps.Server.{text_or, port_or, logger_or}
use ftps_qftp_server.Ftpq.State.{StreamId, QuicServer, QuicConn, SubConn, SubSession}

-- `ServerOpts`. The factory, the auth and the logger are of types that the user of the library supplies;
-- `none` is nil.
pub record QuicServerOpts (F A L : Type 0) : Type 0 where
  pub factory : Option F
  pub auth : Option A
  pub name : Bytes
  pub hostname : Bytes
  pub public_ip : Bytes
  pub port : ℤ
  pub tls : Bool
  pub cert_file : Bytes
  pub key_file : Bytes
  pub welcome_message : Bytes
  pub logger : Option L

-- The zero value of `ServerOpts`, for nil options.
unfoldable pub no_opts : {F A L : Type 0} → QuicServerOpts F A L
no_opts = record {
  factory = none;
  auth = none;
  name = [];
  hostname = [];
  public_ip = [];
  port = pos 0;
  tls = false;
  cert_file = [];
  key_file = [];
  welcome_message = [];
  logger = none;
}

module _ {F A L : Type 0} (std_logger : L) where
  unfoldable pub with_defaults : QuicServerOpts F A L → QuicServerOpts F A L
  unfolding text_or port_or logger_or codes
  with_defaults opts = record {
    factory = opts.factory;
    auth = opts.auth;
    name = text_or opts.name (codes "Go QUIC-FTP Server");
    hostname = text_or opts.hostname (codes "::");
    public_ip = opts.public_ip;
    port = port_or opts.port (pos 3000);
    tls = opts.tls;
    cert_file = opts.cert_file;
    key_file = opts.key_file;
    welcome_message = text_or opts.welcome_message (codes "Welcome to the Go QUIC-FTP Server");
    logger = logger_or opts.logger std_logger;
  }

  -- `serverOptsWithDefaults`.
  unfoldable pub server_opts_with_defaults : Option (QuicServerOpts F A L) → QuicServerOpts F A L
  unfolding with_defaults no_opts
  server_opts_with_defaults none = with_defaults no_opts
  server_opts_with_defaults (some opts) = with_defaults opts

-- `listenTo` of `NewServer`.
unfoldable pub listen_to : {F A L : Type 0} → QuicServerOpts F A L → Bytes
unfolding join_host_port format_int
listen_to opts = join_host_port opts.hostname (format_int opts.port)

-- `Server.newConn`; the session's number is random.
unfoldable pub new_conn : QuicServer → Bytes → Bytes → QuicConn
new_conn server local_addr session_id = record {
  data_receive_streams = [];
  locked = false;
  server = server;
  session_id = session_id;
  local_addr = local_addr;
  running_sub_conn = pos 0;
}

-- `Conn.newSubConn`.
unfoldable pub new_sub_conn : QuicConn → StreamId → SubConn
new_sub_conn conn stream_id = record {
  stream_id = stream_id;
  session_id = conn.session_id;
  req_user = [];
  user = [];
  rename_from = [];
  last_file_pos = pos 0;
  append_data = false;
  closed = false;
  name_prefix = b'/' ∷ [];
}

-- A sub-connection whose stream was just accepted, in a session in whatever state the others left it.
unfoldable pub new_sub_session : {W : Type 0} → QuicConn → StreamId → W → SubSession W
unfolding new_sub_conn
new_sub_session conn stream_id w = record {
  sub = new_sub_conn conn stream_id;
  shared = conn;
  world = w;
  trace = [];
}

-- The limits of a session, which the package sets by constants.
abbrev pub max_streams_per_session : ℕ
max_streams_per_session = 3

abbrev pub max_stream_flow_control : ℕ
max_stream_flow_control = 212992

-- The fields of `quic.Config` that `simpleQUICConfig` sets.
pub record QuicConfig : Type 0 where
  pub connection_id_length : ℕ
  pub max_incoming_uni_streams : ℕ
  pub max_incoming_streams : ℕ
  pub max_receive_stream_window : ℕ
  pub max_receive_connection_window : ℕ
  pub keep_alive : Bool

-- `simpleQUICConfig`.
unfoldable pub simple_quic_config : QuicConfig
simple_quic_config = record {
  connection_id_length = 4;
  max_incoming_uni_streams = max_streams_per_session;
  max_incoming_streams = max_streams_per_session;
  max_receive_stream_window = max_stream_flow_control;
  max_receive_connection_window = max_stream_flow_control * (max_streams_per_session + 1);
  keep_alive = false;
}
