-- ===== src/Config.antt =====
-- backend/src/moadian/config: the two environments, the profiles and the signing material.
pub mod Environment
pub mod Profiles
