-- ===== src/Address.antt =====
-- Workspace/networks.c and Workspace/gethostbyname.c: sockets and addresses of the UDP programs.
mod Defs
pub mod Ports
pub mod Text
unfoldable pub use Defs.*
