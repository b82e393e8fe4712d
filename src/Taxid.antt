-- ===== src/Taxid.antt =====
-- The package backend/src/moadian/taxid: the check digit and the tax id that carries it.
pub mod Verhoeff
pub mod Provider
