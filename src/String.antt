-- ===== src/String.antt =====
-- Strings that are read line by line and split (cstructures/src/string.c).
pub mod Struct
pub mod Lines
pub mod Tokens
pub mod Valid
pub mod Proof
