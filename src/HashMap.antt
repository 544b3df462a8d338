-- ===== src/HashMap.antt =====
-- The hash map with open addressing and tombstones: cstructures/src/hashmap.c.
pub mod Struct
pub mod Probe
pub mod Find
pub mod Iterate
pub mod Insert
pub mod Valid
pub mod Proof
