-- ===== src/Ftps.antt =====
-- The package `ftps`: FTP over TCP, with TLS on demand.
pub mod State
pub mod Connection
pub mod Socket
pub mod Commands
pub mod Dispatch
pub mod Paths
pub mod Invariant
pub mod Server
pub mod Confined
pub mod Login
pub mod Protection
pub mod Sequences
pub mod Accepting
pub mod Advertising
pub mod PassiveSocket
pub mod LoginLines
pub mod Lines
pub mod User
pub mod Transfers
mod Tests
pub mod Security
pub mod Closing
pub mod Opening
pub mod Defaults
