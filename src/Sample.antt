-- ===== src/Sample.antt =====
-- Workspace/myClient.c and Workspace/myServer.c: the sample programs for the TCP functions.
mod State
pub mod Client
pub mod Server
pub mod Line
pub mod Session
pub mod Overrun
unfoldable pub use State.*
