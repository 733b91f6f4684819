-- ===== src/Ws.antt =====
-- The WebSocket protocol of INCLUDE/CProtocolWS.hpp: frames, their encoding and their parsing.
pub mod Frame
pub mod Masking
pub mod Header
pub mod Stream
pub mod Limits
pub mod Handshake
pub mod Session
pub mod Serving
mod Tests
