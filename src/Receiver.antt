-- ===== src/Receiver.antt =====
-- Workspace/rcopy.c and Workspace/functions.c: the client while it receives the file.
mod State
mod Buffer
mod Transfer
pub mod Invariant
pub mod Flush
pub mod Store
pub mod Step
pub mod Progress
pub mod Prefix
pub mod Truncated
pub mod InOrder
unfoldable pub use State.*
unfoldable pub use Buffer.*
unfoldable pub use Transfer.*
