-- ===== src/Ftps/Transfers.antt =====
-- ftps/cmd.go and ftps/conn.go: what a client receives over a data connection, and when PASV fails.
use ftps_qftp_server.Prelude.{◌≡◌, ◌≢◌, refl, true, none, some, List, [], ◌∷◌, arith}
use ftps_qftp_server.Text.{Bytes, has_prefix}
use ftps_qftp_server.Text.Scan.{last_index}
use ftps_qftp_server.Text.Split.{Lacks}
use ftps_qftp_server.Text.Equality.{bytes_eq-ne_false}
use ftps_qftp_server.Driver.{ok, FileInfo}
use ftps_qftp_server.Listing.{short}
use ftps_qftp_server.Ftps.State.{Socket, Event, data_written, Env, Session}
use ftps_qftp_server.Ftps.Connection.{
  build_path, write_message, send_outofband_data, write_out, close_data_conn, passive_listen_ip,
}
use ftps_qftp_server.Ftps.Commands.Transfer.{
  execute_nlst, answer_nlst, list_directory, send_listing, parse_list_param,
}
use ftps_qftp_server.Ftps.Commands.Ports.{
  execute_pasv, execute_epsv, answer_host_pasv, answer_host_epsv, host_part, data_connection_failed,
}
use ftps_qftp_server.Ftps.Invariant.{Post}

-- What is sent over data connections, the newest first.
abbrev pub sent : List Event → List (Socket × Bytes)
sent [] = []
sent (data_written socket bytes ∷ trace) = (socket, bytes) ∷ sent trace
sent (_ ∷ trace) = sent trace

module _ {W : Type 0} (env : Env W) (s : Session W) where
  -- NLST on a directory that the driver lists, with a data connection open, sends the short listing of
  -- the files over that data connection, once, and leaves no data connection.
  pub nlst_sends :
      (param : Bytes) (info : FileInfo) (files : List FileInfo) (socket : Socket)
      → s.data_conn ≡ some socket
      → (env.stat (build_path s.conn (parse_list_param param)) s.world).0 ≡ ok (some info)
      → info.is_dir ≡ true
      → (env.list_dir
          (build_path s.conn (parse_list_param param))
          (env.stat (build_path s.conn (parse_list_param param)) s.world).1).0
        ≡ ok files
      → Post
          (λ t. (sent t.trace ≡ (socket, short files) ∷ sent s.trace) × (t.data_conn ≡ none))
          (execute_nlst env param s)
  unfolding execute_nlst answer_nlst list_directory send_listing send_outofband_data write_out
      close_data_conn write_message build_path
  nlst_sends param info files socket e a b c = rw (a, b, c, e) (refl, refl)

last_index-Lacks : (s : Bytes) → Lacks b':' s → last_index s (b':' ∷ []) ≡ none
unfolding last_index has_prefix
last_index-Lacks [] h = refl
last_index-Lacks (c ∷ s) (hc, h) = rw (last_index-Lacks s h) (ground arith)

module _ {W : Type 0} (env : Env W) where
  -- With a PublicIp that holds no colon PASV and EPSV answer 425 and open no socket, whatever the
  -- network would answer.
  pub passive_without_port :
      (param : Bytes) (s : Session W)
      → s.server.public_ip ≢ []
      → Lacks b':' s.server.public_ip
      → (execute_pasv env param s ≡ data_connection_failed s)
        × (execute_epsv env param s ≡ data_connection_failed s)
  unfolding execute_pasv execute_epsv answer_host_pasv answer_host_epsv passive_listen_ip host_part
  passive_without_port param s ne h =
      rw (bytes_eq-ne_false s.server.public_ip [] ne, last_index-Lacks s.server.public_ip h)
        (refl, refl)
