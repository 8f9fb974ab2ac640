-- ===== src/System.antt =====
-- Workspace/server.c and Workspace/rcopy.c: a child of the server and a client that run side by side.
mod Defs
pub mod Loops
pub mod Invariant
pub mod Sender
pub mod Acks
pub mod Moves
pub mod Receiver
pub mod Deliver
pub mod Steps
pub mod Safety
pub mod Turns
pub mod Copies
pub mod Lossless
pub mod Session
unfoldable pub use Defs.*
