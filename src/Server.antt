-- ===== src/Server.antt =====
-- Workspace/server.c: the child process that serves one client, as a state machine.
mod State
mod Setup
mod Send
mod Transfer
mod Eof
mod Process
pub mod Chunks
pub mod Acks
pub mod Timeouts
pub mod Log
pub mod Replies
pub mod Run
pub mod Silent
pub mod Unheard
pub mod Fuel
pub mod Total
pub mod Handshake
pub mod Listen
pub mod Forks
pub mod Zombies
pub mod Sizes
pub mod EofKept
pub mod Closes
pub mod Serves
pub mod Session
unfoldable pub use State.*
unfoldable pub use Setup.*
unfoldable pub use Send.*
unfoldable pub use Transfer.*
unfoldable pub use Eof.*
unfoldable pub use Process.*
