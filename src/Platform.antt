-- ===== src/Platform.antt =====
-- The server of the platform: src/Server.cc with include/Server.h, and its two stores of keys.
pub mod AesKey
pub mod Body
pub mod World
pub mod Server
pub mod BaseShm
pub mod SeckeyShm
pub mod Json
pub mod Tables
pub mod SeckeyMysql
pub mod Main
