-- ===== src/Memory.antt =====
-- The allocation tracker (cstructures/src/memory.c), as a build with CSTRUCTURES_MEMORY_DEBUGGING and
-- without backtraces has it.
pub mod Struct
pub mod Track
pub mod Report
pub mod Valid
pub mod Calls
pub mod Proof
