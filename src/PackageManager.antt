-- ===== src/PackageManager.antt =====
-- src/manager-lib/packagemanager.cpp, asynchronoustask.cpp and package.cpp: the queue of installer
-- tasks, and the states of a package during its installation, update and removal.
pub mod Task
pub mod Queue
pub mod Events
pub mod Holding
pub mod Ending
pub mod Canceling
pub mod Executing
pub mod Calls
pub mod Safety
pub mod Liveness
pub mod Package
pub mod Installing
pub mod Blocking
pub mod Names
mod Tests
