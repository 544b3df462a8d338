-- ===== src/String/Proof.antt =====
-- What is proved of cstructures/src/string.c.
pub mod Push
pub mod Lines
pub mod Getline
pub mod RoundTrip
pub mod Chars
pub mod Tokens
