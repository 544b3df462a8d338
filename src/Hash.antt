-- ===== src/Hash.antt =====
-- The hash functions: cstructures/src/hash.c.
pub mod Defs
pub mod Bounds
