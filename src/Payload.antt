-- ===== src/Payload.antt =====
-- The ISO 23150 payload parsers of src/protocol: RDI, SHII and SPI, and the common interface header
-- that each of them reads first.
pub mod Header
pub mod Rdi
pub mod Shi
pub mod Spi
