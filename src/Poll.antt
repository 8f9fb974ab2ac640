-- ===== src/Poll.antt =====
-- Workspace/pollLib.c: the table of descriptors that the programs poll.
mod Defs
pub mod Table
pub mod Refine
pub mod Call
pub mod Socket
unfoldable pub use Defs.*
