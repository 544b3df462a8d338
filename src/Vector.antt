-- ===== src/Vector.antt =====
-- The dynamic array of cstructures/src/vector.c and cstructures/include/cstructures/vector.h.
-- `Struct`, `Storage`, `Insert`, `Erase`, `Access` and `Reverse` hold the functions; the modules
-- below `Proof` hold what is proved of them.
pub mod Struct
pub mod Storage
pub mod Insert
pub mod Erase
pub mod Access
pub mod Iterate
pub mod Reverse
pub mod Valid
pub mod Proof
