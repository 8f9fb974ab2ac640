-- ===== src/CircularQueue.antt =====
-- Workspace/circularQueue.c and circularQueue.h: the sender's window. A pointer to a slot is the
-- slot itself; `none` is a fault (a division by zero, or a slot outside of the array).
mod Defs
pub mod Cases
pub mod Valid
pub mod View
pub mod Window
pub mod Slots
pub mod Refine
unfoldable pub use Defs.*
