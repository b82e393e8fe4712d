-- ===== src/Models.antt =====
-- The package backend/src/moadian/models: what an invoice is and how it is written out.
pub mod Invoice
pub mod Responses
