-- ===== src/Wire.antt =====
-- Molecules and atoms as JSON: `Molecule::toJson` and `Molecule::jsonToObject` of src/Molecule.cpp and
-- `Atom::jsonToObject` of src/Atom.cpp.
pub mod Write
pub mod Read
pub mod Plain
pub mod RoundTrip
pub mod Molecules
