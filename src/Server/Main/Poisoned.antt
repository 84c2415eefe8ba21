-- ===== src/Server/Main/Poisoned.antt =====
-- One search beside `run_server`, in main.rs: `build_search_uri` unwraps with the lock of the settings.
use yaffle.Server.Main.{Main}
