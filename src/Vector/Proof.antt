-- ===== src/Vector/Proof.antt =====
-- What is proved of cstructures/src/vector.c.
pub mod Grow
pub mod Open
pub mod Raise
pub mod Insert
pub mod Erase
pub mod Capacity
pub mod Append
pub mod Find
pub mod Swap
pub mod Reverse
pub mod Shape
pub mod Iterate
