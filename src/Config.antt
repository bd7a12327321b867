-- ===== src/Config.antt =====
-- src/config_api/config_client.h and config_client.cpp: the configuration API over a connection.
pub mod Json
pub mod Types
pub mod Reads
pub mod Tables
pub mod Crc
pub mod Writes
pub mod Exchange
pub mod Calls
pub mod Mode
pub mod RoundTrip
pub mod Legacy
pub mod Tests
