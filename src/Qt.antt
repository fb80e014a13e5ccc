-- ===== src/Qt.antt =====
-- The Qt value classes that the program's data is made of (they are no code of the repository).
pub mod Map
pub mod Variant
pub mod Queue
pub mod Heap
