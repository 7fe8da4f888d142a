-- ===== src/Ftpq/Accepting.antt =====
-- ftpq/server.go: `ListenAndServe`, and the loop of `Serve`, which does what that of the package `ftps` does.
use ftps_qftp_server.Prelude.{
  ap, ◌≡◌, refl, Bool, Option, none, some, List, [], ◌∷◌, ◌++◌, if◌then◌else◌, ℕ,
}
use ftps_qftp_server.Text.{Bytes, codes}
use ftps_qftp_server.Number.{format_int}
use ftps_qftp_server.Driver.{Result, ok, err}
use ftps_qftp_server.Ftpq.State.{SubCommand}
use ftps_qftp_server.Ftpq.Server.{QuicServerOpts}
use ftps_qftp_server.Ftps.Accepting.{
  Arrival, accept_failed, arrived, server_closed, serve_failed, server_logged, conn_started,
  conn_closed, Served, then_served, serve_listener as ftps_serve_listener,
  end_failed as ftps_end_failed, end_arrived as ftps_end_arrived,
}

unfoldable pub end_failed : Bytes → Bool → Served → Served
unfolding codes
end_failed e temporary rest =
    let line = server_logged (codes "listening error: %v") (e ∷ []) in
    if temporary
    then then_served (line ∷ []) rest
    else record { result = some (serve_failed e); events = line ∷ [] }

-- The error of `newConn` is nil always.
unfoldable pub end_arrived : ℕ → Result (Unit {0}) → Served → Served
unfolding codes
end_arrived c (ok driver) rest = then_served (conn_started c ∷ []) rest
end_arrived c (err e) rest =
    then_served
      (server_logged (codes "Error creating driver, aborting client connection: %v") (e ∷ [])
        ∷ conn_closed c
        ∷ [])
      rest

-- `Server.Serve`, over the rounds until now.
unfoldable pub serve_listener : List Arrival → Served
unfolding end_failed end_arrived
serve_listener [] = record { result = none; events = [] }
serve_listener (accept_failed e temporary told ∷ rounds) =
    let rest = serve_listener rounds in
    if told
    then record { result = some server_closed; events = [] }
    else end_failed e temporary rest
serve_listener (arrived c driver ∷ rounds) = end_arrived c driver (serve_listener rounds)

end_arrived_same :
    (c : ℕ) (driver : Result (Unit {0})) (s : Served)
    → end_arrived c driver s ≡ ftps_end_arrived c driver s
unfolding end_arrived ftps_end_arrived
end_arrived_same c (ok driver) s = refl
end_arrived_same c (err e) s = refl

-- The two packages accept connections in the same way.
pub serve_listener_same :
    (rounds : List Arrival) → serve_listener rounds ≡ ftps_serve_listener rounds
unfolding serve_listener ftps_serve_listener end_failed ftps_end_failed
serve_listener_same [] = refl
serve_listener_same (accept_failed e temporary told ∷ rounds) =
    ap
      (λ rest.
        if told
        then record { result = some server_closed; events = [] }
        else ftps_end_failed e temporary rest)
      (serve_listener_same rounds)
serve_listener_same (arrived c driver ∷ rounds) =
    let ih = serve_listener_same rounds in
    rw ih (end_arrived_same c driver (ftps_serve_listener rounds))

-- `featCmds` behind the lines that `init` adds, over the table in the order in which Go runs through it.
unfoldable pub feat_cmds : {W : Type 0} → Bytes → List (Bytes × SubCommand W) → Bytes
feat_cmds text [] = text
feat_cmds text ((name, command) ∷ table) =
    let longer = feat_cmds (text ++ b' ' ∷ (name ++ b'\n' ∷ [])) table in
    let same = feat_cmds text table in if command.is_extend then longer else same

-- What `ListenAndServe` leaves in the server, and what it returns.
pub record ListenResult : Type 0 where
  pub feats : Bytes
  pub served : Served

-- The end of `ListenAndServe`, on the error of the listener.
unfoldable pub end_listen : Bytes → Bytes → Bytes → List Arrival → Option Bytes → ListenResult
unfolding serve_listener codes
end_listen name port cur_feats rounds (some e) = record {
  feats = [];
  served = record { result = some (serve_failed e); events = [] };
}
end_listen name port cur_feats rounds none = record {
  feats = codes "Extensions supported:\n" ++ cur_feats;
  served =
      then_served (server_logged (codes "%s listening on %d") (name ∷ port ∷ []) ∷ [])
        (serve_listener rounds);
}

module _ {F A L : Type 0} (load_key_pair : Bytes → Bytes → Option Bytes)
    (listen_addr : Bytes → Option Bytes) (opts : QuicServerOpts F A L) (listen_to : Bytes) where
  -- The end of `ListenAndServe`, on the error of the key pair.
  unfoldable pub end_load : Bytes → List Arrival → Option Bytes → ListenResult
  unfolding end_listen format_int
  end_load cur_feats rounds (some e) = record {
    feats = [];
    served = record { result = some (serve_failed e); events = [] };
  }
  end_load cur_feats rounds none =
      end_listen opts.name (format_int opts.port) cur_feats rounds (listen_addr listen_to)

  -- `Server.ListenAndServe`: the key pair is loaded whatever the option `TLS` says.
  unfoldable pub listen_and_serve : Bytes → List Arrival → ListenResult
  unfolding end_load
  listen_and_serve cur_feats rounds =
      end_load cur_feats rounds (load_key_pair opts.cert_file opts.key_file)
