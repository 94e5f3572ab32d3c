-- ===== src/Devices.antt =====
-- The device drivers and processor tables: bytes and words that are packed for the hardware.
pub mod Ports
pub mod Pic
pub mod Descriptors
pub mod Ata
pub mod Transfer
pub mod Sectors
pub mod Rtc
