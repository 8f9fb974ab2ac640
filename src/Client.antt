-- ===== src/Client.antt =====
-- Workspace/rcopy.c: the client before the transfer.
mod Request
mod Defs
mod Handshake
mod Main
pub mod Opening
pub mod Sockets
pub mod Connected
pub mod Retries
pub mod Agreement
unfoldable pub use Request.*
unfoldable pub use Defs.*
unfoldable pub use Handshake.*
unfoldable pub use Main.*
