-- ===== src/DataConvert.antt =====
-- The number and text conversions of class DataConvert.
pub mod Digits
pub mod Itoa
pub mod Atoi
mod Tests
