-- ===== src/QuickLauncher.antt =====
-- src/manager-lib/quicklauncher.cpp: the pool of containers and runtimes that are started ahead.
pub mod Pool
mod Growing
pub mod Filling
pub mod Removing
pub mod Crashing
mod Counting
mod Tests
