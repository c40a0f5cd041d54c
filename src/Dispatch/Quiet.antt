-- ===== src/Dispatch/Quiet.antt =====
-- What src/server/server_dispatch.c does that moves no peer.
pub mod Restore
pub mod Wire
pub mod Play
