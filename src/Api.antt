-- ===== src/Api.antt =====
-- backend/src/moadian/api/app.py: the routes that keep and file invoices.
pub mod Invoices
pub mod Referring
pub mod Filing
