-- ===== src/Rules.antt =====
-- The package backend/src/moadian/rules: an invoice is checked offline before a serial is spent.
pub mod Violations
pub mod Spec
pub mod Arithmetic
pub mod Engine
pub mod Units
