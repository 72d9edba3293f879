-- ===== src/Served.antt =====
-- The molecules that a node serves, in src/Molecule.cpp.
pub mod Timestamp
pub mod Client
