-- ===== src/Auth.antt =====
-- backend/src/moadian/auth: accounts, sessions and the routes on them.
pub mod Store
pub mod Session
pub mod Routes
