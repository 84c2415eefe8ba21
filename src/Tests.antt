-- ===== src/Tests.antt =====
-- Runs at concrete inputs, and each theorem at an input that meets its hypotheses.
mod Buffers
mod Gelf
mod RecvLoop
mod Nom
mod Syslog
mod Schema
mod Types
mod Server
mod Search
mod Pipeline
mod Run
mod Lines
mod Stored
mod App
mod Service
mod SearchPage
mod Line
