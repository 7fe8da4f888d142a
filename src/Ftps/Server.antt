-- ===== src/Ftps/Server.antt =====
-- ftps/server.go: the options of a server, the server, and a new connection.
use ftps_qftp_server.Prelude.{zero, suc, Bool, false, Option, none, some, [], ◌∷◌, if◌then◌else◌}
use ftps_qftp_server.Prelude.Int.{ℤ, pos, negsuc}
use ftps_qftp_server.Text.{Bytes, codes, bytes_eq}
use ftps_qftp_server.Number.{format_int}
use ftps_qftp_server.Ftps.State.{Conn, Server, TlsConfig, data_connection_clear, Session}
use ftps_qftp_server.Ftps.Socket.{join_host_port}

-- `ServerOpts`. The factory, the auth and the logger are of types that the user of the library
-- supplies; `none` is nil.
pub record ServerOpts (F A L : Type 0) : Type 0 where
  pub factory : Option F
  pub auth : Option A
  pub name : Bytes
  pub hostname : Bytes
  pub public_ip : Bytes
  pub passive_ports : Bytes
  pub port : ℤ
  pub tls : Bool
  pub cert_file : Bytes
  pub key_file : Bytes
  pub explicit_ftps : Bool
  pub welcome_message : Bytes
  pub logger : Option L

-- The text, or another one for the empty text.
unfoldable pub text_or : Bytes → Bytes → Bytes
unfolding bytes_eq
text_or text d = if bytes_eq text [] then d else text

unfoldable pub port_or : ℤ → ℤ → ℤ
port_or (pos zero) d = d
port_or (pos (suc n)) d = pos (suc n)
port_or (negsuc n) d = negsuc n

unfoldable pub logger_or : {L : Type 0} → Option L → L → Option L
logger_or none d = some d
logger_or (some l) d = some l

abbrev pub default_welcome_message : Bytes
default_welcome_message = codes "Welcome to the Go FTP Server"

-- The zero value of `ServerOpts`, for nil options.
unfoldable pub no_opts : {F A L : Type 0} → ServerOpts F A L
no_opts = record {
  factory = none;
  auth = none;
  name = [];
  hostname = [];
  public_ip = [];
  passive_ports = [];
  port = pos 0;
  tls = false;
  cert_file = [];
  key_file = [];
  explicit_ftps = false;
  welcome_message = [];
  logger = none;
}

module _ {F A L : Type 0} (std_logger : L) where
  unfoldable pub with_defaults : ServerOpts F A L → ServerOpts F A L
  unfolding text_or port_or logger_or codes
  with_defaults opts = record {
    factory = opts.factory;
    auth = opts.auth;
    name = text_or opts.name (codes "Go FTP Server");
    hostname = text_or opts.hostname (codes "::");
    public_ip = opts.public_ip;
    passive_ports = opts.passive_ports;
    port = port_or opts.port (pos 3000);
    tls = opts.tls;
    cert_file = opts.cert_file;
    key_file = opts.key_file;
    explicit_ftps = opts.explicit_ftps;
    welcome_message = text_or opts.welcome_message default_welcome_message;
    logger = logger_or opts.logger std_logger;
  }

  -- `serverOptsWithDefaults`.
  unfoldable pub server_opts_with_defaults : Option (ServerOpts F A L) → ServerOpts F A L
  unfolding with_defaults no_opts
  server_opts_with_defaults none = with_defaults no_opts
  server_opts_with_defaults (some opts) = with_defaults opts

-- `listenTo` of `NewServer`.
unfoldable pub listen_to : {F A L : Type 0} → ServerOpts F A L → Bytes
unfolding join_host_port format_int
listen_to opts = join_host_port opts.hostname (format_int opts.port)

-- `Server.newConn`, over a connection with the given local address; the session's number is random.
unfoldable pub new_conn : Server → Option TlsConfig → Bytes → Bytes → Conn
new_conn server tls_config local_addr session_id = record {
  local_addr = local_addr;
  data_conn = none;
  server = server;
  tls_config = tls_config;
  session_id = session_id;
  name_prefix = b'/' ∷ [];
  req_user = [];
  user = [];
  rename_from = [];
  last_file_pos = pos 0;
  append_data = false;
  closed = false;
  tls = false;
  protocol_buffer_size = negsuc 0;
  data_connection_protection = data_connection_clear;
}

-- A connection that was just accepted: nothing has happened yet.
unfoldable pub new_session :
    {W : Type 0} → Server → Option TlsConfig → Bytes → Bytes → W → Session W
unfolding new_conn
new_session server tls_config local_addr session_id w = record {
  conn = new_conn server tls_config local_addr session_id;
  world = w;
  trace = [];
}
