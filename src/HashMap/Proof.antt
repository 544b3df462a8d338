-- ===== src/HashMap/Proof.antt =====
-- What is proved of cstructures/src/hashmap.c.
pub mod Sound
pub mod Read
pub mod Find
pub mod Entry
pub mod Period
pub mod Erase
pub mod Probe
pub mod Put
pub mod Store
pub mod Insert
pub mod Init
pub mod Cover
pub mod Ends
pub mod Spread
pub mod Room
pub mod Rehash
pub mod Resize
pub mod Moved
pub mod Update
pub mod Iterate
