-- ===== src/Installer.antt =====
-- src/manager-lib/scopeutilities.cpp, deinstallationtask.cpp, and recursiveOperation of
-- src/common-lib/utilities.cpp: the directories of a package, and their removal.
pub mod Files
pub mod Renamer
pub mod Renaming
pub mod Undoing
pub mod Securing
pub mod Backup
pub mod Deinstallation
pub mod Approval
pub mod Elsewhere
pub mod Finishing
pub mod Removing
mod SmallDisk
mod Tests
