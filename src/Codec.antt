-- ===== src/Codec.antt =====
-- The encodings of single values in ch_client.cpp.
pub mod Uuid
pub mod Decimal
pub mod DateTime64
