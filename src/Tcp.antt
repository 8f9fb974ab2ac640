-- ===== src/Tcp.antt =====
-- Workspace/networks.c and Workspace/safeUtil.c: TCP connections.
mod Defs
unfoldable pub use Defs.*
