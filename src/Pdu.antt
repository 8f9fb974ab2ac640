-- ===== src/Pdu.antt =====
-- Workspace/functions.c and functions.h: the layout of a PDU, the functions that build one in a
-- caller's array, and the fields that every receiver reads from its array. `in_cksum` is linked
-- from a library, so it is a parameter: a function of the bytes that it is called on.
mod Build
mod Parse
pub mod Wire
pub mod RoundTrip
unfoldable pub use Build.*
unfoldable pub use Parse.*
