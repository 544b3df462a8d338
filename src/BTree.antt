-- ===== src/BTree.antt =====
-- The sorted array of key-value pairs of cstructures/src/btree.c and
-- cstructures/include/cstructures/btree.h: keys of four bytes from the start of the object, values
-- behind the last key that the capacity allows. `Struct`, `Storage`, `Search`, `Insert`, `Erase` and
-- `Query` hold the functions; the modules below `Proof` hold what is proved of them.
pub mod Struct
pub mod Storage
pub mod Search
pub mod Insert
pub mod Erase
pub mod Iterate
pub mod Query
pub mod Valid
pub mod Proof
