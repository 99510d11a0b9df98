-- ===== src/Plugin.antt =====
-- The plugins of plugin/: crash detection, recovery and reset over `UdsUtils`.
pub mod Crash
pub mod Reset
