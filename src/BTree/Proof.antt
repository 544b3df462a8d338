-- ===== src/BTree/Proof.antt =====
-- What is proved of cstructures/src/btree.c.
pub mod Read
pub mod Move
pub mod Grow
pub mod Shift
pub mod Place
pub mod Lookup
pub mod Find
pub mod Insert
pub mod Close
pub mod Erase
pub mod EraseKey
pub mod Update
pub mod Capacity
pub mod Unused
pub mod Match
pub mod Iterate
pub mod Filter
