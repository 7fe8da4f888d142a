-- ===== src/Lib.antt =====
-- A model of a Go library for file servers: FTP with TLS on demand over TCP (the package `ftps`), FTP over
-- the streams of a QUIC session (the package `ftpq`), and the interfaces to the persistence layer that
-- its user supplies (the root package).
--
-- The parts, and the files that model them:
-- - Driver.antt: driver.go, auth.go and fileinfo.go. `Driver` is a record of functions over a type `W` of
--   worlds, so that an implementation may answer anything and keep any state; `SimpleAuth` is a definition.
-- - Driver/Passwords.antt: what SimpleAuth accepts.
-- - Listing.antt: listformatter.go, `short`, `detailed` and `lpad`.
-- - Logging.antt: logger.go, the lines of `StdLogger`.
-- - Ftps/State.antt: the struct `Conn` of ftps/conn.go, what it holds of `Server`, and the state monad `M`:
--   an action ends with a value or with a panic of Go, in both cases with the connection, the world and
--   the trace of events. An event is a call of the driver, of the auth or of the logger, an answer on the
--   control connection, or a socket or reader that is opened or closed; the newest stands first.
-- - Ftps/Connection.antt: the methods of `Conn` that the commands use: `parse_line` (parseLine),
--   `build_path` (buildPath), `passive_port` (PassivePort), `write_message`, `close`, `upgrade_to_tls`,
--   `send_outofband_data` and `send_outofband_data_writer`.
-- - Ftps/Socket.antt and Ftps/PassiveSocket.antt: the opening of active and passive data connections of
--   ftps/socket.go, and a passive socket with the goroutine that accepts its connection.
-- - Ftps/Commands.antt: the table of ftps/cmd.go, with one record `command_x` for each type `commandX` and
--   one function `execute_x` for its Execute, in five child modules.
-- - Ftps/Dispatch.antt: `receive_line` (receiveLine) and `serve` (Serve) over the lines of a client.
-- - Ftps/Server.antt: the options of ftps/server.go with their defaults, and a new connection.
-- - Ftps/Accepting.antt: `ListenAndServe` and `Serve` of ftps/server.go, over what the listener and the
--   factory answer in each round, and the text of FEAT that `init` of ftps/cmd.go computes.
-- - Ftpq/State.antt: `Conn` of ftpq/conn.go, which the sub-connections of a session share, `SubConn` of
--   ftpq/subConn.go, and the monad `Q`: as `M`, but an action may also wait for ever, as
--   behind a call of the session that never answers (`never_answered` of `Awaited`). The mutex
--   `structAccessMutex` is a flag that says whether it is held for good: by the last sub-connection, or by
--   one that waits for ever between its Lock and the deferred Unlock (`with_lock`).
-- - Ftpq/SubConn.antt: the methods of `SubConn` and `Conn` that the commands use, with the data streams of a
--   session. Ftpq/Commands.antt: the table of ftpq/cmd.go, in three child modules. Ftpq/Dispatch.antt:
--   receiveLine and Serve of ftpq/subConn.go.
-- - Ftpq/Session.antt: `Conn.Serve` of ftpq/conn.go with the goroutines that it starts, as a step relation:
--   a round of the accept loop, or one line of one sub-connection, in any order.
-- - Ftpq/Server.antt and Ftpq/Accepting.antt: ftpq/server.go.
-- - Text.antt, FilePath.antt and Number.antt: Go's `strings`, `path/filepath` (on Unix) and `strconv` as far
--   as the code calls them, on texts as lists of bytes, with their laws.
--
-- The commands are proved to keep invariants of a connection through one interface,
-- Ftps/Invariant.antt: a record with a law for each way in which a command changes the state. Its
-- child modules show for every command of the table that the laws are enough; Ftps/Confined.antt,
-- Ftps/Login.antt, Ftps/Protection.antt and Ftps/User.antt supply the laws for four invariants. The
-- other modules of Ftps are about single methods and about commands that work together, as
-- Ftps/Closing.antt about QUIT and the loop.
--
-- A sub-connection of `ftpq` is seen as a connection of `ftps` (Ftpq/View.antt). Ftpq/Alike.antt
-- compares the commands that both packages have under this view, and Ftpq/Invariant.antt with its
-- child modules carries the invariants of `ftps` over, which Ftpq/Safety.antt uses. What the view does
-- not show is in Ftpq/Streams.antt and Ftpq/Replies.antt (the streams of a session), in
-- Ftpq/Storing.antt (STOR), in Ftpq/Quiet.antt, Ftpq/Counting.antt and Ftpq/Rounds.antt (what the
-- commands do to the count of sub-connections), and in Ftpq/Fate.antt, Ftpq/Ending.antt,
-- Ftpq/Quitting.antt and Ftpq/Abandoned.antt (the end of a session, by induction on its steps). The
-- modules named Tests apply the theorems to concrete inputs.
--
-- Parameters: the driver, the auth, and the network (`Network`: dialling, listening, the TLS handshake, the
-- bytes of a data connection, the random numbers, the Unicode tables of ToUpper; `QuicNetwork`: the
-- streams of a QUIC session). They may answer anything at all, unless a theorem states what it needs. An
-- `int` has 64 bits, with the wrap-around written out where the code computes with it; a count that only
-- goes up or down by one for each sub-connection is an integer.
--
-- Bounds and fuel: the loop of Serve is recursion on the lines that the client sends before its input
-- ends, and the accept loop of a server on the rounds until now. The loop of newPassiveSocket is
-- recursion on the rounds that are left, 9 behind the first of 10. The loop of getReceiveDataStream
-- has one round for each number up to the wanted one, which is enough where streams come in the order
-- of their numbers; if the fuel ends, the model takes the loop to go on for ever, with the mutex held.
-- The digits of a number are written by recursion on a bound, which is the number itself: it has at
-- most as many digits.
--
-- Not modelled: the configuration of TLS, which is filled for its library; that Shutdown ends an
-- Accept, which is the listener's, so that the accept loop learns of Shutdown by a flag of each round;
-- Read, ReadFrom, Write and Close of an active socket, which are calls of Go's connection alone. A
-- transfer of a command and the passive socket that it uses are modelled apart: for a command, the
-- bytes of a data connection are a call of the network. A step of a session is one line of one
-- sub-connection: what happens between the calls of two sub-connections within a line is not. A lock
-- that is released again is granted, and a call of the session that answers late answers within the
-- line that makes it. The errors of writes to the control connection are ignored by the code, and
-- here. The example programs are not modelled.
mod Prelude
pub mod Text
pub mod FilePath
pub mod Number
pub mod Driver
pub mod Listing
pub mod Logging
pub mod Ftps
pub mod Ftpq
