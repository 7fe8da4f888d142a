-- ===== src/Ftpq.antt =====
-- The package `ftpq`: FTP over QUIC, with a control stream for each sub-connection of a session.
pub mod State
pub mod SubConn
pub mod Commands
pub mod Dispatch
pub mod View
pub mod Alike
pub mod Invariant
pub mod Server
pub mod Safety
pub mod Lock
pub mod Streams
pub mod Quiet
pub mod Session
pub mod Counting
pub mod Rounds
pub mod Fate
pub mod Ending
pub mod Quitting
pub mod Abandoned
pub mod Replies
pub mod Storing
pub mod Accepting
mod Tests
