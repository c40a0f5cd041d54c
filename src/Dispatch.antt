-- ===== src/Dispatch.antt =====
-- The dispatch of what arrives, src/server/server_dispatch.c. Dispatch.Game has `handle_game_message`,
-- Dispatch.Packet `bc_handle_packet`.
pub mod Game
pub mod Packet
pub mod Names
pub mod Quiet
pub mod Session
mod Tests
