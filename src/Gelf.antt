-- ===== src/Gelf.antt =====
-- yaffle-server/src/gelf.rs: GELF messages from UDP packets, chunked and compressed ones included.
pub mod Crates
pub mod Packet
pub mod Chunks
pub mod Parse
pub mod RecvLoop
