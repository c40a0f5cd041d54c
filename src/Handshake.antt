-- ===== src/Handshake.antt =====
-- The handshake's packets, src/shared/protocol/handshake.c: `Build` has what the server sends, `Response` the
-- parser of the client's answers, `Validate` their check against the manifest.
pub mod Build
pub mod Response
pub mod Validate
mod Tests
