-- ===== src/Memory/Proof.antt =====
-- What is proved of cstructures/src/memory.c.
pub mod Ledger
pub mod Listed
pub mod Tally
pub mod Track
pub mod Runs
pub mod Leaks
pub mod Dump
