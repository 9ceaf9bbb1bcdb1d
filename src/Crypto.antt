-- ===== src/Crypto.antt =====
-- include/openssl: the wrappers around OpenSSL.
pub mod Base64
pub mod Hash
pub mod Rsa
