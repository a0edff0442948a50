-- ===== src/Codec.antt =====
-- core/codec: what the frames are made of.
pub mod Crc
pub mod Frame
pub mod Packed6
pub mod StationId
pub mod Locator
pub mod Rs
pub mod DataFrame
mod Tests
