-- ===== src/Wireless.antt =====
-- The package wmbus: wireless M-Bus telegrams, from their bytes to the records of the wired package.
pub mod Crc
pub mod Link
pub mod Transport
pub mod Cipher
pub mod Telegram
