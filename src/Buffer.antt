-- ===== src/Buffer.antt =====
-- The C library's memory functions over one allocated object (used by cstructures/src/vector.c and
-- cstructures/src/btree.c). The allocator is a parameter of the code that calls it.
mod Defs
mod Laws
unfoldable pub use Defs.*
pub use Laws.*
