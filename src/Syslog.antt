-- ===== src/Syslog.antt =====
-- yaffle-server/src/syslog.rs: syslog messages from UDP packets.
pub mod Nom
pub mod Chrono
pub mod Number
pub mod Facility
pub mod Parsers
pub mod RecvLoop
