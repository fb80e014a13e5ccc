-- ===== src/Starting.antt =====
-- src/manager-lib/applicationmanager.cpp, application.cpp, debugwrapper.cpp and runtimefactory.cpp: the
-- start and the stop of applications.
pub mod DebugWrapper
pub mod State
pub mod Launch
pub mod Start
pub mod Failing
pub mod Checking
pub mod Leaving
pub mod Pooling
pub mod Restricting
pub mod Stopping
pub mod Finishing
pub mod Wrapping
pub mod Reading
mod Tests
