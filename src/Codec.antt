-- ===== src/Codec.antt =====
-- The text encodings of utility.cpp: hexadecimal, base64 and substrings of one size.
pub mod Hex
pub mod Base64
pub mod Chunks
