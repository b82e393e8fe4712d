-- ===== src/Store.antt =====
-- backend/src/moadian/store/records.py: what the application keeps between invoices. Every method
-- takes the lock, so that each is one step.
pub mod Invoices
pub mod Counting
pub mod Keys
pub mod Catalogue
pub mod Official
