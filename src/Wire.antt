-- ===== src/Wire.antt =====
-- What travels to the tax organization: JSON values and their canonical bytes.
pub mod Float
pub mod Json
pub mod Canonical
