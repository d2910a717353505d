-- ===== src/Logger.antt =====
-- utils/logger: levels and log entries.
pub mod Level
pub mod Entry
pub mod AliLog
pub mod Report
pub mod Registry
pub mod Output
