-- ===== src/Ftps/Accepting.antt =====
-- ftps/server.go: `ListenAndServe`, and the loop of `Serve` over what its listener and its factory answer.
use ftps_qftp_server.Prelude.{
  ℕ, ap, ◌≡◌, refl, Bool, true, false, ◌||◌, Option, none, some, List, [], ◌∷◌, ◌++◌, if◌then◌else◌,
}
use ftps_qftp_server.Text.{Bytes, codes}
use ftps_qftp_server.Number.{format_int}
use ftps_qftp_server.Driver.{Result, ok, err}
use ftps_qftp_server.Ftps.State.{TlsConfig, Command}
use ftps_qftp_server.Ftps.Server.{ServerOpts}

-- What a round of `Serve` meets: `Accept` fails, with the text of its error, whether it is temporary,
-- and whether the server was told to shut down by then; or a connection comes, known by a number, with
-- what `NewDriver` returns for it.
pub data Arrival : Type 0 where
  accept_failed : Bytes → Bool → Bool → Arrival
  arrived : ℕ → Result (Unit {0}) → Arrival

-- The errors that `Serve` returns, `ErrServerClosed` first.
pub data ServeError : Type 0 where
  server_closed : ServeError
  serve_failed : Bytes → ServeError

-- What a server does besides: it logs, it starts the goroutine of a connection, or closes one.
pub data ServerEvent : Type 0 where
  server_logged : Bytes → List Bytes → ServerEvent
  conn_started conn_closed : ℕ → ServerEvent

-- The events of the loop, the oldest first, and its result, if it has returned.
pub record Served : Type 0 where
  pub result : Option ServeError
  pub events : List ServerEvent

abbrev pub then_served : List ServerEvent → Served → Served
then_served before s = record { result = s.result; events = before ++ s.events }

-- The end of a round in which `Accept` failed.
unfoldable pub end_failed : Bytes → Bool → Served → Served
unfolding codes
end_failed e temporary rest =
    let line = server_logged (codes "listening error: %v") (e ∷ []) in
    if temporary
    then then_served (line ∷ []) rest
    else record { result = some (serve_failed e); events = line ∷ [] }

-- The end of a round in which a connection came.
unfoldable pub end_arrived : ℕ → Result (Unit {0}) → Served → Served
unfolding codes
end_arrived c (ok driver) rest = then_served (conn_started c ∷ []) rest
end_arrived c (err e) rest =
    then_served
      (server_logged (codes "Error creating driver, aborting client connection: %v") (e ∷ [])
        ∷ conn_closed c
        ∷ [])
      rest

-- `Server.Serve`, over the rounds until now: at the end of the list it waits for the next connection.
unfoldable pub serve_listener : List Arrival → Served
unfolding end_failed end_arrived
serve_listener [] = record { result = none; events = [] }
serve_listener (accept_failed e temporary told ∷ rounds) =
    let rest = serve_listener rounds in
    if told
    then record { result = some server_closed; events = [] }
    else end_failed e temporary rest
serve_listener (arrived c driver ∷ rounds) = end_arrived c driver (serve_listener rounds)

-- A reference: the rounds up to the first one that ends the server.
abbrev pub ends_server : Arrival → Option ServeError
ends_server (arrived c driver) = none
ends_server (accept_failed e temporary true) = some server_closed
ends_server (accept_failed e true false) = none
ends_server (accept_failed e false false) = some (serve_failed e)

abbrev pub until : Option ServeError → Arrival → List Arrival → List Arrival
until none a rounds = a ∷ rounds
until (some e) a rounds = []

abbrev pub live_rounds : List Arrival → List Arrival
live_rounds [] = []
live_rounds (a ∷ rounds) = until (ends_server a) a (live_rounds rounds)

abbrev pub or_later : Option ServeError → Option ServeError → Option ServeError
or_later none later = later
or_later (some e) later = some e

abbrev pub first_end : List Arrival → Option ServeError
first_end [] = none
first_end (a ∷ rounds) = or_later (ends_server a) (first_end rounds)

-- The connections that came, and whether they had a driver.
abbrev pub has_driver : Result (Unit {0}) → Bool
has_driver (ok driver) = true
has_driver (err e) = false

abbrev pub connections : List Arrival → List (ℕ × Bool)
connections [] = []
connections (arrived c driver ∷ rounds) = (c, has_driver driver) ∷ connections rounds
connections (accept_failed e temporary told ∷ rounds) = connections rounds

-- The connections that were started or closed, in order.
abbrev pub handled : List ServerEvent → List (ℕ × Bool)
handled [] = []
handled (conn_started c ∷ events) = (c, true) ∷ handled events
handled (conn_closed c ∷ events) = (c, false) ∷ handled events
handled (server_logged format args ∷ events) = handled events

-- Every connection that the listener accepts before the first error that ends the server is handled
-- once, in order: it is served if the factory has a driver for it, and closed if not. The server ends at
-- the first error of `Accept` after Shutdown, with ErrServerClosed, or that is not temporary, with that
-- error; a temporary error, and an error of the factory, do not end it.
pub serve_listener_lem :
    (rounds : List Arrival)
    → (handled (serve_listener rounds).events ≡ connections (live_rounds rounds))
      × ((serve_listener rounds).result ≡ first_end rounds)
unfolding serve_listener end_failed end_arrived
serve_listener_lem [] = (refl, refl)
serve_listener_lem (arrived c (ok driver) ∷ rounds) =
    let (h, r) = serve_listener_lem rounds in (ap (λ cs. (c, true) ∷ cs) h, r)
serve_listener_lem (arrived c (err e) ∷ rounds) =
    let (h, r) = serve_listener_lem rounds in (ap (λ cs. (c, false) ∷ cs) h, r)
serve_listener_lem (accept_failed e temporary true ∷ rounds) = (refl, refl)
serve_listener_lem (accept_failed e true false ∷ rounds) = serve_listener_lem rounds
serve_listener_lem (accept_failed e false false ∷ rounds) = (refl, refl)

-- `featCmds` behind the lines that `init` adds, over the table in the order in which Go runs through it.
unfoldable pub feat_cmds : {W : Type 0} → Bytes → List (Bytes × Command W) → Bytes
feat_cmds text [] = text
feat_cmds text ((name, command) ∷ table) =
    let longer = feat_cmds (text ++ b' ' ∷ (name ++ b'\n' ∷ [])) table in
    let same = feat_cmds text table in if command.is_extend then longer else same

-- What `ListenAndServe` asks for: the key pair, and a listener without or with TLS; `none` is no error.
pub record Listening : Type 0 where
  pub load_key_pair : Bytes → Bytes → Option Bytes
  pub listen : Bytes → Option Bytes
  pub listen_tls : Bytes → Option Bytes

-- What it leaves in the server, and what it returns.
pub record ListenResult : Type 0 where
  pub tls_config : Option TlsConfig
  pub feats : Bytes
  pub served : Served

abbrev pub not_served : Option TlsConfig → Bytes → ListenResult
not_served config e = record {
  tls_config = config;
  feats = [];
  served = record { result = some (serve_failed e); events = [] };
}

-- The end of `ListenAndServe`, on the error of the listener.
unfoldable pub end_listen :
    Bytes → Bytes → Option TlsConfig → Bytes → List Arrival → Option Bytes → ListenResult
unfolding serve_listener codes
end_listen name port config cur_feats rounds (some e) = not_served config e
end_listen name port config cur_feats rounds none = record {
  tls_config = config;
  feats = codes "Extensions supported:\n" ++ cur_feats;
  served =
      then_served (server_logged (codes "%s listening on %d") (name ∷ port ∷ []) ∷ [])
        (serve_listener rounds);
}

module _ {F A L : Type 0} (outside : Listening) (opts : ServerOpts F A L) (listen_to : Bytes) where
  -- With TLS, on the error of the key pair.
  unfoldable pub listen_with_tls : Bytes → List Arrival → Option Bytes → ListenResult
  unfolding end_listen codes format_int
  listen_with_tls cur_feats rounds (some e) = not_served none e
  listen_with_tls cur_feats rounds none =
      end_listen opts.name (format_int opts.port)
        (some (record { cert_file = opts.cert_file; key_file = opts.key_file }))
        (cur_feats ++ codes " AUTH TLS\n PBSZ\n PROT\n") rounds
        (if opts.explicit_ftps then outside.listen listen_to else outside.listen_tls listen_to)

  -- `Server.ListenAndServe`, with the text of `featCmds`.
  unfoldable pub listen_and_serve : Bytes → List Arrival → ListenResult
  unfolding listen_with_tls end_listen format_int
  listen_and_serve cur_feats rounds =
      if opts.tls
      then listen_with_tls cur_feats rounds (outside.load_key_pair opts.cert_file opts.key_file)
      else end_listen opts.name (format_int opts.port) none cur_feats rounds
          (outside.listen listen_to)

-- What `Serve` and `Shutdown` share: whether `cancel` is set, whether it was called, and the listener,
-- known by a number.
pub record ServerState : Type 0 where
  pub has_cancel : Bool
  pub cancelled : Bool
  pub listener : Option ℕ

-- The head of `Serve`: a new context, which is not cancelled.
unfoldable pub begin_serve : ℕ → ServerState → ServerState
begin_serve l s = record { has_cancel = true; cancelled = false; listener = some l }

-- The result of `Shutdown`, with what closing the listener returns.
unfoldable pub close_listener : (ℕ → Option Bytes) → Option ℕ → Option Bytes
close_listener close none = none
close_listener close (some l) = close l

-- `Server.Shutdown`.
unfoldable pub shutdown : (ℕ → Option Bytes) → ServerState → ServerState × Option Bytes
unfolding close_listener
shutdown close s =
    (record s { cancelled = s.cancelled || s.has_cancel }, close_listener close s.listener)
