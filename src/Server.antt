-- ===== src/Server.antt =====
-- The inference server: packages/server/src/interlatent_server/server/.
pub mod ChunkBuffer
pub mod Recorder
pub mod Servicer
pub mod Rows
pub mod Stitching
pub mod Painting
pub mod Appending
mod Examples
