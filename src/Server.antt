-- ===== src/Server.antt =====
-- main.rs of yaffle-server: the index, the ingest loop and the search.
pub mod Index
pub mod Ingest
pub mod Search
pub mod Pipeline
pub mod Setup
pub mod Run
pub mod Main
