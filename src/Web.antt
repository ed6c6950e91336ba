-- ===== src/Web.antt =====
-- The web package: the tunnel, the installer of its binary, and the page's updates.
pub mod Tunnel
pub mod Install
pub mod Hub
pub mod Lan
